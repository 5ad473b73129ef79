-- ===== src/Cli/Fields.antt =====
-- The arguments and the lists of items of main.go.
use bloom_filter_jyy_0098_go.Base.{
  ℕ, ◌<◌, ◌≡◌, refl, sym, ap, ◌∙◌, List, [], ◌∷◌, ◌++◌, length, arith, false, All, append-nil,
  append_assoc, Bool-cases, inl, inr, not, ◌&&◌,
}
use mathlib.Core.List.{Perm, perm_middle}
use mathlib.Core.List.Perm
use bloom_filter_jyy_0098_go.Cli.{
  is_flag, has_equals, split_flags, reorder_flags, is_separator, end_field, fields_func, set_items,
  join_items,
}

-- A field that the separators leave whole: it has bytes, none of which is a separator.
pub record IsField (x : List ℕ) : Type 0 where
  pub some_bytes : 0 < length x
  pub whole : All (λ c. is_separator c ≡ false) x

-- The bytes of a field are taken up one by one.
fields_func-append :
    (field x v : List ℕ)
    → All (λ c. is_separator c ≡ false) x
    → fields_func field (x ++ v) ≡ fields_func (field ++ x) v
unfolding fields_func
fields_func-append field [] v h = ap (λ f. fields_func f v) (sym (append-nil field))
fields_func-append field (c ∷ x) v h =
    rw (fields_func, h.0)
      (fields_func-append (field ++ c ∷ []) x v h.1
        ∙ ap (λ f. fields_func f v) (append_assoc field (c ∷ []) x))

end_field-IsField :
    (x : List ℕ) (fields : List (List ℕ)) → IsField x → end_field x fields ≡ x ∷ fields
unfolding end_field
end_field-IsField [] fields h = absurd (omega (arith, h.some_bytes))
end_field-IsField (c ∷ cs) fields h = refl

fields_func-join_items : (xs : List (List ℕ)) → All IsField xs → fields_func [] (join_items xs) ≡ xs
unfolding fields_func join_items is_separator
fields_func-join_items [] h = refl
fields_func-join_items (x ∷ []) h =
    ap (fields_func []) (sym (append-nil x))
    ∙ fields_func-append [] x [] h.0.whole
    ∙ end_field-IsField x [] h.0
fields_func-join_items (x ∷ y ∷ xs) h =
    fields_func-append [] x (b',' ∷ join_items (y ∷ xs)) h.0.whole
    ∙ end_field-IsField x (fields_func [] (join_items (y ∷ xs))) h.0
    ∙ ap (λ l. x ∷ l) (fields_func-join_items (y ∷ xs) h.1)

-- What `String` prints of items that are not empty and have no comma, space or tab, `Set` splits
-- into these items again, which it appends.
pub set_items-join_items :
    (items xs : List (List ℕ)) → All IsField xs → set_items items (join_items xs) ≡ items ++ xs
unfolding set_items
set_items-join_items items xs h = ap (λ l. items ++ l) (fields_func-join_items xs h)

split_flags-Perm :
    (args : List (List ℕ))
    → Perm ((split_flags args).0 ++ (split_flags args).1) args
      × All (λ a. is_flag a ≡ false) (split_flags args).1
unfolding split_flags
split_flags-Perm [] = (Perm.nil, tt)
split_flags-Perm (a ∷ []) = elim (Bool-cases (is_flag a)) [
  | inl e ↦ rw e (Perm.refl (a ∷ []), tt)
  | inr e ↦ rw e (Perm.refl (a ∷ []), (e, tt))
]
split_flags-Perm (a ∷ b ∷ args) =
    let one = split_flags-Perm (b ∷ args) in
    let two = split_flags-Perm args in
    elim (Bool-cases (is_flag a)) [
      | inl e ↦ elim (Bool-cases (not (is_flag b) && not (has_equals a))) [
        | inl q ↦ rw (e, q) (Perm.cons a (Perm.cons b two.0), two.1)
        | inr q ↦ rw (e, q) (Perm.cons a one.0, one.1)
      ]
      | inr e ↦
          let r = split_flags (b ∷ args) in
          rw e (Perm.trans (perm_middle r.0 r.1) (Perm.cons a one.0), (e, one.1))
    ]

-- `reorderFlags` loses and repeats no argument: it returns the arguments in another order, in
-- which those at the end that it takes for positional do not begin with a dash.
pub reorder_flags-Perm :
    (args : List (List ℕ))
    → (flags : List (List ℕ)) × (rest : List (List ℕ)) × (reorder_flags args ≡ flags ++ rest)
      × Perm (flags ++ rest) args
      × All (λ a. is_flag a ≡ false) rest
unfolding reorder_flags
reorder_flags-Perm args =
    let r = split_flags args in let p = split_flags-Perm args in (r.0, r.1, refl, p.0, p.1)
