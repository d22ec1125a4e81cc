-- ===== src/Finality/Ancestry.antt =====
-- `confirm_ancestry` against the chains of parent links.
use smallgod.Prelude.{
  ℕ, zero, suc, ◌≤◌, ◌≡◌, ◌≢◌, ◌↔◌, ◌⊎◌, inl, inr, refl, true, some, Option-cases, subst, sym, ◌∙◌,
  length, arith,
}
use smallgod.Prelude.Maps.{HashMap, get, remove, get-remove_self, get-remove_ne, length-remove-lt}
use smallgod.Finality.{walk, confirm_ancestry}

module _ {H : Type 0} (dec : Discrete H) where
  -- `b` is `a`, or an ancestor of `a` by the parent links of the map.
  pub data Descends (m : HashMap H H) : H → H → Type 0 where
    here : {a : H} → Descends m a a
    link : {a p b : H} → get dec a m ≡ some p → Descends m p b → Descends m a b

  walk_sound : (n : ℕ) (a b : H) (m : HashMap H H) → walk dec n a b m ≡ true → Descends m a b
  unfolding walk
  walk_sound zero a b m h = cc
  walk_sound (suc n) a b m h = elim (Option-cases (get dec a m)) [
    | inl missing ↦ absurd (ground arith)
    | inr (p, found) ↦ elim (dec p b) [
      | yes e ↦ link found (subst (Descends m p) e here)
      | no d ↦ link found (walk_sound n p b m (ground arith))
    ]
  ]

  -- A chain that passes `a` may be cut at its last visit.
  cut :
      {m : HashMap H H} (a p : H) {x b : H}
      → get dec a m ≡ some p
      → Descends m x b
      → Descends (remove dec a m) x b ⊎ Descends (remove dec a m) p b
  cut a p e here = inl here
  cut {m} a p e (link {a = x} {p = y} {b} f r) = elim (cut a p e r) [
    | inr later ↦ inr later
    | inl rest ↦ elim (dec x a) [
      | yes q ↦
          let same : y ≡ p = ground arith in
          inr (subst (λ z. Descends (remove dec a m) z b) same rest)
      | no q ↦ inl (link (get-remove_ne dec a x m q ∙ f) rest)
    ]
  ]

  -- From the hash of an entry the chain can be walked in the map without that entry.
  cut_first :
      {m : HashMap H H} (a p b : H)
      → get dec a m ≡ some p
      → Descends m p b
      → Descends (remove dec a m) p b
  cut_first a p b e r = elim (cut a p e r) [ inl rest ↦ rest | inr rest ↦ rest ]

  -- A map whose entries are all in `m`.
  abbrev IsWithin : HashMap H H → HashMap H H → Type 0
  IsWithin s m = (k v : H) → get dec k s ≡ some v → get dec k m ≡ some v

  IsWithin-remove : (a : H) (s m : HashMap H H) → IsWithin s m → IsWithin (remove dec a s) m
  IsWithin-remove a s m w k v e = elim (dec k a) [
    | yes q ↦ absurd (ground (arith, get-remove_self dec a s))
    | no q ↦ w k v (sym (get-remove_ne dec a k s q) ∙ e)
  ]

  walk_complete :
      (n : ℕ) (a b : H) (s m : HashMap H H)
      → length s ≤ n
      → IsWithin s m
      → a ≢ b
      → Descends s a b
      → walk dec n a b m ≡ true
  unfolding walk
  walk_complete n a b s m le w ne here = absurd (ne refl)
  walk_complete zero a b s m le w ne (link {p} f r) =
      absurd (omega (arith, length-remove-lt dec a s p f))
  walk_complete (suc n) a b s m le w ne (link {p} f r) = elim (dec p b) [
    | yes e ↦ ground (arith, w a p f)
    | no d ↦
        let rest =
          walk_complete n p b (remove dec a s) m (omega (arith, length-remove-lt dec a s p f))
            (IsWithin-remove a s m w) d (cut_first a p b f r) in
        ground (arith, w a p f)
  ]

  -- `confirm_ancestry` holds exactly if the root is the child itself or can be reached from it by
  -- parent links, by a chain of any length: as many passes as the map has entries suffice.
  pub confirm_ancestry-iff-Descends :
      (child root : H) (m : HashMap H H)
      → (confirm_ancestry dec child root m ≡ true) ↔ Descends m child root
  unfolding confirm_ancestry
  confirm_ancestry-iff-Descends child root m =
      let passed = λ (ne : child ≢ root).
        walk_complete (length m) child root m m (omega arith) (λ k v e. e) ne in
      elim (dec child root) [
        | yes e ↦ (λ h. subst (Descends m child) e here, λ d. ground arith)
        | no ne ↦ (
          λ h. walk_sound (length m) child root m (ground arith),
          λ d. ground (arith, passed ne d),
        )
      ]
