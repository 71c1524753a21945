-- ===== src/Channel/Mount/Args.antt =====
-- src/channel.rs: the strings that are passed to libfuse, and `with_fuse_args`.
use fuse_rs.Base.{
  ℕ, ◌+◌, ◌%◌, ◌^◌, ◌≡◌, ◌⊎◌, inl, inr, refl, ap, ◌∙◌, pos, zero, suc, List, [], ◌∷◌, ◌++◌, none,
  some, arith, All, length, map, length-map, as_i32,
}
use fuse_rs.Os.{FuseArgs}
use fuse_rs.Ll.Argument.{position}
use fuse_rs.Ll.Argument.Laws.{NonZero}
use fuse_rs.Channel.Mount.{c_string, c_strings, fuse_args, fuse_rs_name, with_fuse_args}

position-cases :
    (bs : List ℕ)
    → (All NonZero bs × (position bs ≡ none))
      ⊎ ((¬ All NonZero bs) × (n : ℕ) × (position bs ≡ some n))
unfolding position
position-cases [] = inl (tt, refl)
position-cases (zero ∷ bs) = inr ((λ h. absurd (h.0 refl)), 0, refl)
position-cases (suc b ∷ bs) = elim (position-cases bs) [
  | inl (h, e) ↦ inl ((omega arith, h), ground (arith, e))
  | inr (h, n, e) ↦ inr ((λ all. h all.1), suc n, ground (arith, e))
]

-- The string with the zero byte that ends it.
abbrev pub terminated : List ℕ → List ℕ
terminated bs = bs ++ 0 ∷ []

pub c_string_cases :
    (bs : List ℕ)
    → (All NonZero bs × (c_string bs ≡ some (terminated bs)))
      ⊎ ((¬ All NonZero bs) × (c_string bs ≡ none))
unfolding c_string
c_string_cases bs = elim (position-cases bs) [
  | inl (h, e) ↦ inl (h, rw (c_string, e) refl)
  | inr (h, n, e) ↦ inr (h, rw (c_string, e) refl)
]

c_strings_cases :
    (ss : List (List ℕ))
    → (All (All NonZero) ss × (c_strings ss ≡ some (map terminated ss)))
      ⊎ ((¬ All (All NonZero) ss) × (c_strings ss ≡ none))
unfolding c_strings
c_strings_cases [] = inl (tt, refl)
c_strings_cases (s ∷ ss) = elim (c_string_cases s) [
  | inr (h, e) ↦ inr ((λ all. h all.0), rw (c_strings, e) refl)
  | inl (h, e) ↦ elim (c_strings_cases ss) [
    | inr (h', e') ↦ inr ((λ all. h' all.1), rw (c_strings, e, e') refl)
    | inl (h', e') ↦ inl ((h, h'), rw (c_strings, e, e') refl)
  ]
]

-- What `with_fuse_args` passes on.
abbrev pub mount_args : List (List ℕ) → FuseArgs
mount_args options = record {
  argc = as_i32 ((1 + length options) % 2 ^ 32);
  argv = map terminated (fuse_rs_name ∷ options);
  allocated = pos 0;
}

with_fuse_args-some :
    {T : Type 0} (options : List (List ℕ)) (f : FuseArgs → T) (args : List (List ℕ))
    → c_strings (fuse_rs_name ∷ options) ≡ some args
    → with_fuse_args options f ≡ some (f (fuse_args args))
unfolding with_fuse_args
with_fuse_args-some options f args e = rw (with_fuse_args, e) refl

-- `with_fuse_args` passes on the name of the library and the options in order, each with a zero
-- byte behind it, and their number in all as an i32, if no option has a zero byte in it, and
-- panics otherwise.
pub with_fuse_args_cases :
    {T : Type 0} (options : List (List ℕ)) (f : FuseArgs → T)
    → (All (All NonZero) options
        × (with_fuse_args options f
            ≡ some (
                f (record {
                  argc = as_i32 ((1 + length options) % 2 ^ 32);
                  argv = map terminated (fuse_rs_name ∷ options);
                  allocated = pos 0;
                }))))
      ⊎ ((¬ All (All NonZero) options) × (with_fuse_args options f ≡ none))
unfolding with_fuse_args
with_fuse_args_cases options f = elim (c_strings_cases (fuse_rs_name ∷ options)) [
  | inl (h, e) ↦ inl (
    h.1,
    with_fuse_args-some options f _ e
        ∙ ap
            (λ n. some (
              f (record {
                argc = as_i32 (n % 2 ^ 32);
                argv = map terminated (fuse_rs_name ∷ options);
                allocated = pos 0;
              })))
            (omega (arith, length-map terminated options)),
  )
  | inr (h, e) ↦ inr (
    (λ all. h (
      (
        omega arith,
        (
          omega arith,
          (omega arith, (omega arith, (omega arith, (omega arith, (omega arith, tt))))),
        ),
      ),
      all,
    )),
    rw (with_fuse_args, e) refl,
  )
]
