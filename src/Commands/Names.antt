-- ===== src/Commands/Names.antt =====
-- Which handler src/resp/resp_stream_processor.cc finds for a request.
use shunya_kv.Prelude.{
  ℕ, suc, ◌≡◌, ◌↔◌, refl, sym, ap, subst, ◌∙◌, Bool, true, false, some, List, [], ◌∷◌, map,
  Bool-cases, Option-cases, inl, inr, arith, length,
}
use shunya_kv.Prelude.Bytes.{Bytes}
use shunya_kv.Commands.{
  upper, same_letters, ieq, Command, command_name, command_dispatch, find_command, handle_request,
  dispatch_name, call, set_command, get_command, quit_command, node_info_command, info_command,
}

length-upper : (a : Bytes) → length (map upper a) ≡ length a
length-upper [] = refl
length-upper (c ∷ a) = ap suc (length-upper a)

same_letters→ :
    (a b : Bytes) → length a ≡ length b → same_letters a b ≡ true → map upper a ≡ map upper b
unfolding same_letters
same_letters→ [] [] l e = refl
same_letters→ [] (d ∷ b) l e = absurd (omega (arith, l))
same_letters→ (c ∷ a) [] l e = absurd (omega (arith, l))
same_letters→ (c ∷ a) (d ∷ b) l e =
    let l' : length a ≡ length b = omega (arith, l) in
    let q : same_letters a b ≡ true = ground (arith, e) in
    let r : upper c ≡ upper d = ground (arith, e) in cc (r, same_letters→ a b l' q)

same_letters← : (a b : Bytes) → map upper a ≡ map upper b → same_letters a b ≡ true
unfolding same_letters
same_letters← [] b e = refl
same_letters← (c ∷ a) [] e = absurd (cc e)
same_letters← (c ∷ a) (d ∷ b) e =
    let q : upper c ≡ upper d = cc e in
    let r : map upper a ≡ map upper b = cc e in let s = same_letters← a b r in ground (arith, q, s)

ieq→ : (a b : Bytes) → ieq a b ≡ true → map upper a ≡ map upper b
unfolding ieq
ieq→ a b e =
    let l : length a ≡ length b = ground (arith, e) in
    let q : same_letters a b ≡ true = ground (arith, e) in same_letters→ a b l q

ieq← : (a b : Bytes) → map upper a ≡ map upper b → ieq a b ≡ true
unfolding ieq
ieq← a b e =
    let l : length a ≡ length b = sym (length-upper a) ∙ ap length e ∙ length-upper b in
    let q = same_letters← a b e in ground (arith, l, q)

-- `ieq` holds of the byte strings that agree when their ASCII letters are made upper case, and of no
-- others.
pub ieq-map_upper : (a b : Bytes) → (ieq a b ≡ true) ↔ (map upper a ≡ map upper b)
ieq-map_upper a b = (ieq→ a b, ieq← a b)

upper-upper : (c : ℕ) → upper (upper c) ≡ upper c
unfolding upper
upper-upper c = ground arith

map_upper_twice : (a : Bytes) → map upper (map upper a) ≡ map upper a
map_upper_twice [] = refl
map_upper_twice (c ∷ a) = cc (upper-upper c, map_upper_twice a)

Bool_iff : (b c : Bool) → (b ≡ true → c ≡ true) → (c ≡ true → b ≡ true) → b ≡ c
Bool_iff true c f g = sym (f refl)
Bool_iff false true f g = g refl
Bool_iff false false f g = refl

ieq-upper : (a b : Bytes) → ieq (map upper a) b ≡ ieq a b
ieq-upper a b =
    Bool_iff (ieq (map upper a) b) (ieq a b)
      (λ e. ieq← a b (sym (map_upper_twice a) ∙ ieq→ (map upper a) b e))
      (λ e. ieq← (map upper a) b (map_upper_twice a ∙ ieq→ a b e))

find_command-upper :
    (table : List Command) (a : Bytes) → find_command table (map upper a) ≡ find_command table a
unfolding find_command
find_command-upper [] a = refl
find_command-upper (c ∷ table) a =
    rw (ieq-upper a (command_name c), find_command-upper table a) refl

command_name-upper : (c : Command) → map upper (command_name c) ≡ command_name c
unfolding command_name upper
command_name-upper set_command = refl
command_name-upper get_command = refl
command_name-upper quit_command = refl
command_name-upper node_info_command = refl
command_name-upper info_command = refl

find_command_self : (c : Command) → find_command command_dispatch (command_name c) ≡ some c
unfolding find_command command_name ieq same_letters upper
find_command_self set_command = refl
find_command_self get_command = refl
find_command_self quit_command = refl
find_command_self node_info_command = refl
find_command_self info_command = refl

found_name :
    (table : List Command) (a : Bytes) (c : Command)
    → find_command table a ≡ some c
    → ieq a (command_name c) ≡ true
unfolding find_command
found_name [] a c e = cc
found_name (d ∷ table) a c e = elim (Bool-cases (ieq a (command_name d))) [
  | inl t ↦ let same : d ≡ c = cc (rw t at e) in subst (λ x. ieq a (command_name x) ≡ true) same t
  | inr t ↦ found_name table a c (rw t at e)
]

-- A request with arguments is passed to a handler exactly where its first argument is the handler's
-- name in the command table, in letters of either case; so no two handlers share a request, and the
-- order of the table does not matter.
pub handle_request-call :
    (frame name : Bytes) (args : List Bytes) (c : Command)
    → (handle_request (record { frame = frame; argv = name ∷ args }) ≡ call c)
      ↔ (map upper name ≡ command_name c)
unfolding handle_request
handle_request-call frame name args c = (
  λ e. elim (Option-cases (find_command command_dispatch name)) [
    | inl n ↦ absurd (cc (rw n at e))
    | inr (d, f) ↦
        let same : d ≡ c = cc (rw f at e) in
        ieq→ name (command_name c) (
          subst (λ x. ieq name (command_name x) ≡ true) same (found_name command_dispatch name d f))
        ∙ command_name-upper c
  ],
  λ e. ap dispatch_name (
      sym (find_command-upper command_dispatch name)
      ∙ ap (find_command command_dispatch) e
      ∙ find_command_self c),
)
