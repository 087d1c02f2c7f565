-- ===== src/Prelude/Links.antt =====
-- Intrusive lists of objects. An object is its number; an object is linked while it stands in the
-- list, and an iterator is the object that it points to, or `none` for the end.
use Prim.Native.Nat.{ℕ}
use mathlib.Core.Bool.{Bool, true, false, ◌||◌}
use mathlib.Core.List.{List, [], ◌∷◌, ◌++◌}
use mathlib.Core.Logic.{◌≢◌, inl, inr}
use mathlib.Core.Option.{Option, none, some}
use mathlib.Core.Path.{◌≡◌, refl, ap, sym}
use native.Mathlib.Omega.{arith}
use shunya_kv.Prelude.Tests.{◌==◌, if◌then◌else◌, Bool-cases}
use shunya_kv.Prelude.Lists.{All}

-- `hook.is_linked()`
unfoldable pub is_linked : ℕ → List ℕ → Bool
is_linked x [] = false
is_linked x (y ∷ l) = y == x || is_linked x l

-- `begin()`
abbrev pub front : List ℕ → Option ℕ
front [] = none
front (x ∷ l) = some x

-- `std::next` of the iterator to an object of the list.
unfoldable pub next : ℕ → List ℕ → Option ℕ
next x [] = none
next x (y ∷ l) = if y == x then front l else next x l

unfoldable pub erase : ℕ → List ℕ → List ℕ
erase x [] = []
erase x (y ∷ l) = if y == x then l else y ∷ erase x l

abbrev pub Lacks : ℕ → List ℕ → Type 0
Lacks x = All (λ y. y ≢ x)

-- An object is linked at one place only.
abbrev pub Distinct : List ℕ → Type 0
Distinct [] = Unit
Distinct (x ∷ l) = Lacks x l × Distinct l

pub Lacks-of_append : (x : ℕ) (a b : List ℕ) → Lacks x (a ++ b) → Lacks x a × Lacks x b
Lacks-of_append x [] b h = (tt, h)
Lacks-of_append x (y ∷ a) b h = let r = Lacks-of_append x a b h.1 in ((h.0, r.0), r.1)

pub Lacks-append : (x : ℕ) (a b : List ℕ) → Lacks x a → Lacks x b → Lacks x (a ++ b)
Lacks-append x [] b h k = k
Lacks-append x (y ∷ a) b h k = (h.0, Lacks-append x a b h.1 k)

pub Distinct-middle :
    (a : List ℕ) (x : ℕ) (b : List ℕ)
    → Distinct (a ++ x ∷ b)
    → Lacks x a × Lacks x b × Distinct (a ++ b)
Distinct-middle [] x b d = (tt, d.0, d.1)
Distinct-middle (y ∷ a) x b d =
    let r = Distinct-middle a x b d.1 in
    let (ya, yb) = Lacks-of_append y a (x ∷ b) d.0 in
    ((λ e. yb.0 (sym e), r.0), r.1, (Lacks-append y a b ya yb.1, r.2))

pub is_linked_of_Lacks : (x : ℕ) (l : List ℕ) → Lacks x l → is_linked x l ≡ false
unfolding is_linked
is_linked_of_Lacks x [] h = refl
is_linked_of_Lacks x (y ∷ l) h = ground (arith, is_linked_of_Lacks x l h.1)

pub Lacks-of_is_linked : (x : ℕ) (l : List ℕ) → is_linked x l ≡ false → Lacks x l
unfolding is_linked
Lacks-of_is_linked x [] h = tt
Lacks-of_is_linked x (y ∷ l) h = ground (arith, Lacks-of_is_linked x l)

pub is_linked_middle : (x : ℕ) (a b : List ℕ) → is_linked x (a ++ x ∷ b) ≡ true
unfolding is_linked
is_linked_middle x [] b = ground arith
is_linked_middle x (y ∷ a) b = ground (arith, is_linked_middle x a b)

-- A linked object splits its list.
pub split_at :
    (x : ℕ) (l : List ℕ) → is_linked x l ≡ true → (a : List ℕ) × (b : List ℕ) × (l ≡ a ++ x ∷ b)
unfolding is_linked
split_at x [] h = absurd (cc)
split_at x (y ∷ l) h = elim (Bool-cases (y == x)) [
  | inl e ↦ ([], l, ground arith)
  | inr e ↦ let (a, b, cut) = split_at x l (ground (arith, e)) in (y ∷ a, b, ap (◌∷◌ y) cut)
]

pub erase_middle : (x : ℕ) (a b : List ℕ) → Lacks x a → erase x (a ++ x ∷ b) ≡ a ++ b
unfolding erase
erase_middle x [] b h = ground arith
erase_middle x (y ∷ a) b h = ground (arith, erase_middle x a b h.1)

pub next_middle : (x : ℕ) (a b : List ℕ) → Lacks x a → next x (a ++ x ∷ b) ≡ front b
unfolding next
next_middle x [] b h = ground arith
next_middle x (y ∷ a) b h = ground (arith, next_middle x a b h.1)

pub Distinct-snoc : (l : List ℕ) (x : ℕ) → Lacks x l → Distinct l → Distinct (l ++ x ∷ [])
Distinct-snoc [] x h d = (tt, tt)
Distinct-snoc (y ∷ l) x h d =
    (Lacks-append y l (x ∷ []) d.0 (λ e. h.0 (ground arith), tt), Distinct-snoc l x h.1 d.1)

pub Lacks-erase : (z x : ℕ) (l : List ℕ) → Lacks z l → Lacks z (erase x l)
unfolding erase
Lacks-erase z x [] h = tt
Lacks-erase z x (y ∷ l) h = ground (arith, Lacks-erase z x l h.1)

pub Distinct-erase : (x : ℕ) (l : List ℕ) → Distinct l → Distinct (erase x l)
unfolding erase
Distinct-erase x [] d = tt
Distinct-erase x (y ∷ l) d = ground (arith, Distinct-erase x l d.1, Lacks-erase y x l d.0)

-- Erasing another object leaves a place in the list.
pub erase_around :
    (x h : ℕ) (a b : List ℕ)
    → h ≢ x
    → (a' : List ℕ) × (b' : List ℕ) × (erase x (a ++ h ∷ b) ≡ a' ++ h ∷ b')
unfolding erase
erase_around x h [] b ne = ([], erase x b, ground arith)
erase_around x h (y ∷ a) b ne = elim (Bool-cases (y == x)) [
  | inl e ↦ (a, b, rw e)
  | inr e ↦ let (a', b', r) = erase_around x h a b ne in (y ∷ a', b', rw e (ap (◌∷◌ y) r))
]

pub Distinct-append : (a b : List ℕ) → Distinct (a ++ b) → Distinct b
Distinct-append [] b d = d
Distinct-append (x ∷ a) b d = Distinct-append a b d.1

-- What is left of a list.
pub record Part (l l' : List ℕ) : Type 0 where
  pub sub : (f : ℕ) → is_linked f l' ≡ true → is_linked f l ≡ true
  pub distinct : Distinct l → Distinct l'
  pub empty : l ≡ [] → l' ≡ []

pub Part-refl : (l : List ℕ) → Part l l
Part-refl l = record { sub = λ f h. h; distinct = λ d. d; empty = λ e. e }

pub Part-trans : (a b c : List ℕ) → Part a b → Part b c → Part a c
Part-trans a b c p q = record {
  sub = λ f h. p.sub f (q.sub f h);
  distinct = λ d. q.distinct (p.distinct d);
  empty = λ e. q.empty (p.empty e);
}

is_linked-erase : (f x : ℕ) (l : List ℕ) → is_linked f (erase x l) ≡ true → is_linked f l ≡ true
unfolding is_linked erase
is_linked-erase f x [] h = h
is_linked-erase f x (y ∷ l) h = ground (arith, h, is_linked-erase f x l)

erase-nil : (x : ℕ) (l : List ℕ) → l ≡ [] → erase x l ≡ []
unfolding erase
erase-nil x [] e = refl
erase-nil x (y ∷ l) e = absurd (cc (e))

pub Part-erase : (x : ℕ) (l : List ℕ) → Part l (erase x l)
Part-erase x l = record {
  sub = λ f h. is_linked-erase f x l h;
  distinct = λ d. Distinct-erase x l d;
  empty = λ e. erase-nil x l e;
}
