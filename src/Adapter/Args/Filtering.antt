-- ===== src/Adapter/Args/Filtering.antt =====
-- What filterCustomArgs lets through.
use aiclibridge.Prelude.{
  ◌≡◌, ◌⊎◌, refl, ap, Text, List, [], ◌∷◌, ◌++◌, none, some, is_empty, cut, map, Bool, true, false,
  Lacks, All, arith, Option-cases, inl, inr,
}
use aiclibridge.Adapter.Args.{
  Blocked, BlockedArgMode, blocked_mode, cut_flag, flag_of, takes_next, unshell_quote_arg,
  filter_from, filter_custom_args,
}

cut_of_Lacks : (s : Text) → Lacks b'=' s → cut b'=' s ≡ none
unfolding cut
cut_of_Lacks [] h = refl
cut_of_Lacks (a ∷ s) (p, h) = ground (arith, cut_of_Lacks s h)

cut-append : (s v : Text) → Lacks b'=' s → cut b'=' (s ++ b'=' ∷ v) ≡ some (s, v)
unfolding cut
cut-append [] v h = ground arith
cut-append (a ∷ s) v (p, h) = ground (arith, cut-append s v h)

flag_of-plain : (f : Text) → Lacks b'=' f → (flag_of f).0 ≡ f
unfolding flag_of cut_flag
flag_of-plain f h = ground (arith, cut_of_Lacks f h)

flag_of-inline : (f v : Text) → Lacks b'=' f → is_empty f ≡ false → (flag_of (f ++ b'=' ∷ v)).0 ≡ f
unfolding flag_of cut_flag
flag_of-inline f v h ne = ground (arith, cut-append f v h)

-- An argument that is the flag `f`, alone or with an inline value.
abbrev pub Spells : Text → Text → Type 0
Spells f arg = (arg ≡ f) ⊎ ((v : Text) × (arg ≡ f ++ b'=' ∷ v))

flag_of-Spells :
    (f arg : Text) → Lacks b'=' f → is_empty f ≡ false → Spells f arg → (flag_of arg).0 ≡ f
flag_of-Spells f arg h ne (inl e) = rw e (flag_of-plain f h)
flag_of-Spells f arg h ne (inr (v, e)) = rw e (flag_of-inline f v h ne)

filter_from-unblocked :
    (blocked : Blocked) (skip : Bool) (args : List Text)
    → All (λ arg. blocked_mode (flag_of arg).0 blocked ≡ none) (filter_from blocked skip args)
unfolding filter_from
filter_from-unblocked blocked skip [] = tt
filter_from-unblocked blocked true (raw ∷ args) = filter_from-unblocked blocked false args
filter_from-unblocked blocked false (raw ∷ args) =
    let arg = unshell_quote_arg raw in
    elim (Option-cases (blocked_mode (flag_of arg).0 blocked)) [
      | inl e ↦ rw (filter_from, e) (e, filter_from-unblocked blocked false args)
      | inr (mode, e) ↦
          rw (filter_from, e) (filter_from-unblocked blocked (takes_next mode (flag_of arg).1) args)
    ]

All-map_weaken :
    (P Q : Text → Type 0) → ((x : Text) → P x → Q x) → (xs : List Text) → All P xs → All Q xs
All-map_weaken P Q f [] h = tt
All-map_weaken P Q f (x ∷ xs) (p, h) = (f x p, All-map_weaken P Q f xs h)

-- No argument that passes the filter is a blocked flag, neither alone nor as `flag=value`, however
-- the user quoted it. It is assumed that the flag is not empty and holds no `=`.
pub filter_custom_args-blocks :
    (args : List Text) (blocked : Blocked) (f : Text) (mode : BlockedArgMode)
    → blocked_mode f blocked ≡ some mode
    → Lacks b'=' f
    → is_empty f ≡ false
    → All (λ arg. ¬ (Spells f arg)) (filter_custom_args args blocked)
unfolding filter_custom_args
filter_custom_args-blocks args blocked f mode b h ne =
    All-map_weaken _ _ (λ arg p s. clash arg p (flag_of-Spells f arg h ne s)) _
      (filter_from-unblocked blocked false args)
  where
    clash : (arg : Text) → blocked_mode (flag_of arg).0 blocked ≡ none → (flag_of arg).0 ≡ f → ⊥
    clash arg p e = cc

filter_from_of_unblocked :
    (blocked : Blocked) (args : List Text)
    → All (λ raw. blocked_mode (flag_of (unshell_quote_arg raw)).0 blocked ≡ none) args
    → filter_from blocked false args ≡ map unshell_quote_arg args
unfolding filter_from
filter_from_of_unblocked blocked [] h = refl
filter_from_of_unblocked blocked (raw ∷ args) (p, h) =
    rw (filter_from, p)
      (ap (λ rest. unshell_quote_arg raw ∷ rest) (filter_from_of_unblocked blocked args h))

-- Arguments of which none is a blocked flag all pass, in their order, each with one layer of shell
-- quotes taken off.
pub filter_custom_args-passes :
    (args : List Text) (blocked : Blocked)
    → All (λ raw. blocked_mode (flag_of (unshell_quote_arg raw)).0 blocked ≡ none) args
    → filter_custom_args args blocked ≡ map unshell_quote_arg args
unfolding filter_custom_args
filter_custom_args-passes args blocked h = filter_from_of_unblocked blocked args h
