-- ===== src/Ttl/Policy.antt =====
-- include/ttl/ttl_policy.hh: the time to live that adapts to how often an entry is used.
use shunya_kv.Prelude.{
  ℕ, zero, suc, ◌+◌, ◌-◌, ◌*◌, ◌/◌, ◌%◌, ◌^◌, ◌≤◌, ◌<◌, min, ◌≡◌, refl, sym, ap, subst, ◌∙◌, not,
  ◌&&◌, ltb, leb, ◌==◌, if◌then◌else◌, Bool-cases, inl, inr, arith,
}
use native.Mathlib.Nat.{mul_assoc, pow-succ'}
use shunya_kv.Ttl.{Entry}

pub data Mode : Type 0 where
  fixed sliding tiered_exponential : Mode

pub record TtlPolicy : Type 0 where
  pub mode : Mode
  pub base_ttl : ℕ
  pub max_ttl : ℕ
  pub idle_window : ℕ
  pub heat_max : ℕ

-- The doubling loop, for `shift` rounds.
unfoldable pub double_ttl : (max_ttl shift ttl : ℕ) → ℕ
double_ttl max_ttl zero ttl = ttl
double_ttl max_ttl (suc shift) ttl =
    let rest = double_ttl max_ttl shift (ttl * 2 % 2 ^ 64) in
    if leb (max_ttl / 2) ttl then max_ttl else rest

-- The heat after an access: reset if the entry was idle, and one higher up to the maximum. The
-- subtraction is on `uint64_t`.
unfoldable pub heat_after : TtlPolicy → (now : ℕ) → Entry → ℕ
heat_after p now e =
    let idle =
      not (p.idle_window == 0)
      && not (e.last_access == 0)
      && ltb p.idle_window ((now + 2 ^ 64 - e.last_access) % 2 ^ 64) in
    let heat = if idle then 0 else e.heat in
    if ltb heat p.heat_max then (heat + 1) % 2 ^ 8 else heat

unfoldable pub compute_new_expiry : TtlPolicy → (now : ℕ) → Entry → Entry × ℕ
compute_new_expiry p now e =
    let heat = heat_after p now e in
    let ttl = min (double_ttl p.max_ttl heat p.base_ttl) p.max_ttl in
    elim p.mode [
      | fixed ↦ (e, now)
      | sliding ↦ (record e { last_access = now }, (now + p.base_ttl) % 2 ^ 64)
      | tiered_exponential ↦ (record e { heat = heat; last_access = now }, (now + ttl) % 2 ^ 64)
    ]

pow_pos : (n : ℕ) → 1 ≤ 2 ^ n
pow_pos zero = omega arith
pow_pos (suc n) = omega (arith, pow_pos n)

scale_le : (a b c : ℕ) → b ≤ c → a * b ≤ a * c
scale_le zero b c h = omega arith
scale_le (suc a) b c h = let r = scale_le a b c h in omega (arith, r)

step_pow : (ttl n : ℕ) → ttl * 2 * 2 ^ n ≡ ttl * 2 ^ suc n
step_pow ttl n = mul_assoc ttl 2 (2 ^ n) ∙ ap (◌*◌ ttl) (sym (pow-succ' 2 n))

-- Where the cap is even, the loop multiplies by the power of two, up to the cap.
double_ttl_lem :
    (h n ttl : ℕ)
    → h * 2 < 2 ^ 64
    → min (double_ttl (h * 2) n ttl) (h * 2) ≡ min (ttl * 2 ^ n) (h * 2)
unfolding double_ttl
double_ttl_lem h zero ttl b = let e : ttl * 2 ^ 0 ≡ ttl = omega arith in rw e refl
double_ttl_lem h (suc n) ttl b =
    let half : h * 2 / 2 ≡ h = omega arith in
    elim (Bool-cases (leb h ttl)) [
      | inl t ↦
          let le : h ≤ ttl = ground (arith, t) in
          let room = scale_le (ttl * 2) 1 (2 ^ n) (pow_pos n) in
          let big : h * 2 ≤ ttl * 2 ^ suc n = omega (arith, le, room, step_pow ttl n) in
          rw (half, t) (omega arith)
      | inr t ↦
          let lt : ttl < h = ground (arith, t) in
          let small : ttl * 2 % 2 ^ 64 ≡ ttl * 2 = omega arith in
          let step : ttl * 2 * 2 ^ n ≡ ttl * 2 ^ suc n = step_pow ttl n in
          rw (half, t, small) (double_ttl_lem h n (ttl * 2) b ∙ ap (λ x. min x (h * 2)) step)
    ]

heat_after_bound :
    (p : TtlPolicy) (now : ℕ) (e : Entry)
    → e.heat ≤ p.heat_max
    → p.heat_max < 2 ^ 8
    → heat_after p now e ≤ p.heat_max
unfolding heat_after
heat_after_bound p now e h b = ground (arith, h, b)

-- In the tiered mode with an even cap, the new expiry lies `base_ttl` times two to the power of the
-- new heat after `now`, or the cap where that is less; the heat stays within its maximum, and the
-- access is noted.
pub compute_new_expiry_tiered :
    (p : TtlPolicy) (now half : ℕ) (e : Entry)
    → p.mode ≡ tiered_exponential
    → p.max_ttl ≡ half * 2
    → p.max_ttl < 2 ^ 64
    → e.heat ≤ p.heat_max
    → p.heat_max < 2 ^ 8
    → (let (e', expiry) = compute_new_expiry p now e in
        (expiry ≡ (now + min (p.base_ttl * 2 ^ e'.heat) p.max_ttl) % 2 ^ 64)
        × (e'.heat ≤ p.heat_max)
        × (e'.last_access ≡ now))
unfolding compute_new_expiry
compute_new_expiry_tiered p now half e m even b h hb =
    let heat = heat_after p now e in
    let even_lem =
      subst (λ x. x < 2 ^ 64 → min (double_ttl x heat p.base_ttl) x ≡ min (p.base_ttl * 2 ^ heat) x)
        (sym even) (double_ttl_lem half heat p.base_ttl) in
    rw (m, compute_new_expiry)
      (ap (λ t. (now + t) % 2 ^ 64) (even_lem b), heat_after_bound p now e h hb, refl)
