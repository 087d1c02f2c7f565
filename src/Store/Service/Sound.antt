-- ===== src/Store/Service/Sound.antt =====
-- A shard from the making of its service in src/router.cc on, through any calls.
use shunya_kv.Prelude.{
  ℕ, ◌≡◌, ◌⊎◌, inl, inr, refl, sym, ap, subst, Bool, true, false, List, [], ◌∷◌, if◌then◌else◌,
}
use shunya_kv.Prelude.Links.{is_linked}
use shunya_kv.Pool.Init.{PoolConfig}
use shunya_kv.Pool.Release.{Unlinked}
use shunya_kv.Store.Start.{fresh_store, start_store, store_of}
use shunya_kv.Store.Started.{start_store-IsSound, fresh_store-IsSound}
use shunya_kv.Store.Runs.{
  IsSound, StoreCall, sets, sets_with_ttl, gets, run_call, run_call-IsSound, pooled-Unlinked,
}
use shunya_kv.Store.Service.{
  ServiceState, fresh_service, start_service, default_config, ensure_started, ServiceCall, starts,
  local_call, counts_set, counts_miss, times_get, times_set, serve_call, serve_calls,
}

-- A service is as it was made, or has been started and has a sound store.
abbrev IsFit : ServiceState → Type 0
IsFit s =
    ((s.started ≡ false) × (s.store ≡ fresh_store))
    ⊎ ((s.started ≡ true) × IsSound (store_of s.store))

abbrev IsRunning : ServiceState → Type 0
IsRunning s = (s.started ≡ true) × IsSound (store_of s.store)

start_service-IsRunning :
    (c : PoolConfig) (budget : ℕ) (s : ServiceState)
    → IsFit s
    → IsRunning (start_service c budget s)
unfolding start_service
start_service-IsRunning c budget s (inl (unstarted, made)) =
    let begun = record s { store = start_store c budget s.store; started = true } in
    subst IsRunning (ap (λ b. if b then s else begun) (sym unstarted)) (
      refl,
      subst (λ z. IsSound (store_of (start_store c budget z))) (sym made)
          (start_store-IsSound c budget),
    )
start_service-IsRunning c budget s (inr (running, sound)) =
    let begun = record s { store = start_store c budget s.store; started = true } in
    subst IsRunning (ap (λ b. if b then s else begun) (sym running)) (running, sound)

ensure_started-IsRunning :
    (entry_bytes : ℕ) (s : ServiceState) → IsFit s → IsRunning (ensure_started entry_bytes s)
unfolding ensure_started
ensure_started-IsRunning entry_bytes s (inl (unstarted, made)) =
    let begun = start_service (default_config entry_bytes) 0 s in
    subst IsRunning (ap (λ b. if b then s else begun) (sym unstarted))
      (start_service-IsRunning (default_config entry_bytes) 0 s (inl (unstarted, made)))
ensure_started-IsRunning entry_bytes s (inr (running, sound)) =
    let begun = start_service (default_config entry_bytes) 0 s in
    subst IsRunning (ap (λ b. if b then s else begun) (sym running)) (running, sound)

IsFit-IsSound : (s : ServiceState) → IsFit s → IsSound (store_of s.store)
IsFit-IsSound s (inl (unstarted, made)) =
    subst (λ z. IsSound (store_of z)) (sym made) fresh_store-IsSound
IsFit-IsSound s (inr (running, sound)) = sound

module _ (over_soft_trigger : (used_slots total_slots : ℕ) → Bool) (entry_bytes : ℕ) where
  local_call-IsFit :
      (s : ServiceState) (c : StoreCall)
      → IsFit s
      → IsFit (serve_call over_soft_trigger entry_bytes s (local_call c))
  unfolding serve_call run_call
  local_call-IsFit s c f = go c
    where
      begun : IsRunning (ensure_started entry_bytes s)
      begun = ensure_started-IsRunning entry_bytes s f

      go : (c : StoreCall) → IsFit (serve_call over_soft_trigger entry_bytes s (local_call c))
      go (sets now_s key value) =
          inr (begun.0, run_call-IsSound over_soft_trigger _ (sets now_s key value) begun.1)
      go (sets_with_ttl now_s key value ttl) = inr (
        begun.0,
        run_call-IsSound over_soft_trigger _ (sets_with_ttl now_s key value ttl) begun.1,
      )
      go (gets now_s key) =
          inr (begun.0, run_call-IsSound over_soft_trigger _ (gets now_s key) begun.1)

  serve_call-IsFit :
      (s : ServiceState) (c : ServiceCall)
      → IsFit s
      → IsFit (serve_call over_soft_trigger entry_bytes s c)
  unfolding serve_call
  serve_call-IsFit s (starts c budget) f = inr (start_service-IsRunning c budget s f)
  serve_call-IsFit s (local_call c) f = local_call-IsFit s c f
  serve_call-IsFit s (counts_set forwarded) f = f
  serve_call-IsFit s counts_miss f = f
  serve_call-IsFit s (times_get latency_us) f = f
  serve_call-IsFit s (times_set latency_us) f = f

  serve_calls-IsFit :
      (calls : List ServiceCall) (s : ServiceState)
      → IsFit s
      → IsFit (serve_calls over_soft_trigger entry_bytes s calls)
  unfolding serve_calls
  serve_calls-IsFit [] s f = f
  serve_calls-IsFit (c ∷ calls) s f =
      serve_calls-IsFit calls (serve_call over_soft_trigger entry_bytes s c)
        (serve_call-IsFit s c f)

  -- Whatever calls are made on a new service, its start among them at any place or not at all, and its
  -- stop not: each entry of its shard is in the pool or in the map, at one place; the probation list
  -- and the sieve's list hold entries of the map only, each of its own type and at most once; and no
  -- entry of the pool stands in a list.
  pub serve_calls-Unlinked :
      (calls : List ServiceCall)
      → (let st = store_of (serve_calls over_soft_trigger entry_bytes fresh_service calls).store in
          IsSound st × ((e : ℕ) → is_linked e st.entry_pool.pool ≡ true → Unlinked st.entry_pool e))
  serve_calls-Unlinked calls =
      let s = serve_calls over_soft_trigger entry_bytes fresh_service calls in
      let sound = IsFit-IsSound s (serve_calls-IsFit calls fresh_service (inl (refl, refl))) in
      (sound, λ e h. pooled-Unlinked (store_of s.store) e sound h)
