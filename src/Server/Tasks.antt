-- ===== src/Server/Tasks.antt =====
-- `seastar::gate`, which src/conn/socket_server.cc keeps: what its library promises of it.
use shunya_kv.Prelude.{
  ℕ, suc, ◌+◌, ◌≡◌, Bool, true, false, Option, none, some, ◌⊎◌, inl, inr, Bool-cases,
}

-- A gate counts the tasks inside. `enter` is what `try_with_gate` does before it runs a task: it fails
-- with `gate_closed_exception` exactly when the gate has been closed. A closed gate is left open for
-- the tasks inside to leave, and the future that `close` gives is ready when they all have.
pub record Gate : Type 1 where
  pub State : Type 0
  pub is_closed : State → Bool
  pub count : State → ℕ
  pub enter : State → Option State
  pub leave : State → State
  pub close : State → State
  pub enter_closed : (g : State) → is_closed g ≡ true → enter g ≡ none
  pub enter_open :
      (g : State)
      → is_closed g ≡ false
      → (h : State) × (enter g ≡ some h) × (count h ≡ count g + 1) × (is_closed h ≡ false)
  pub count-leave : (g : State) (n : ℕ) → count g ≡ suc n → count (leave g) ≡ n
  pub is_closed-leave : (g : State) → is_closed (leave g) ≡ is_closed g
  pub count-close : (g : State) → count (close g) ≡ count g
  pub is_closed-close : (g : State) → is_closed (close g) ≡ true

-- What entering the gate comes to.
pub entering :
    (G : Gate) (g : G.State)
    → ((G.is_closed g ≡ true) × (G.enter g ≡ none))
      ⊎ ((h : G.State) × (G.enter g ≡ some h)
          × (G.count h ≡ G.count g + 1)
          × (G.is_closed h ≡ false))
entering G g = elim (Bool-cases (G.is_closed g)) [
  | inl t ↦ inl (t, G.enter_closed g t)
  | inr f ↦ inr (G.enter_open g f)
]
