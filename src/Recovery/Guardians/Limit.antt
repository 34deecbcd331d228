-- ===== src/Recovery/Guardians/Limit.antt =====
-- How many guardians `addGuardian` of recovery.service.ts leaves an account with.
use open_privy.Base.{
  ℕ, ◌+◌, ◌≤◌, Text, text_eq, to_lower, trim, length, Bool, true, false, List, [], ◌∷◌, ◌++◌, leb,
  ◌==◌, ◌≡◌, refl, ◌∙◌, subst, sym, arith, if◌then◌else◌, filter_by, find_by, any_by, Option-cases,
  Bool-cases, inl, inr,
}
use open_privy.Store.{World, Guardian, guardian_invite}
use open_privy.Recovery.{Env, max_guardians, new_token, notify}
use open_privy.Recovery.Guardians.{is_current_of, add_guardian}

length-filter_by_append :
    (p : Guardian → Bool) (gs : List Guardian) (g : Guardian)
    → length (filter_by p (gs ++ g ∷ [])) ≡ length (filter_by p gs) + (if p g then 1 else 0)
length-filter_by_append p [] g = ground arith
length-filter_by_append p (x ∷ gs) g = ground (arith, length-filter_by_append p gs g)

abbrev pub guardians_of : ℕ → World → ℕ
guardians_of owner s = length (filter_by (is_current_of owner) s.guardians)

inserted :
    (owner other : ℕ) (g : Guardian) (s : World)
    → g.owner_user_id ≡ owner
    → leb max_guardians (guardians_of owner s) ≡ false
    → guardians_of other s ≤ max_guardians
    → length (filter_by (is_current_of other) (s.guardians ++ g ∷ [])) ≤ max_guardians
inserted owner other g s mine few h = elim (Bool-cases (g.owner_user_id == other)) [
  | inl same ↦
      let few_of_other : leb max_guardians (guardians_of other s) ≡ false =
        subst (λ o. leb max_guardians (guardians_of o s) ≡ false)
          (sym mine ∙ eq-of-test g.owner_user_id other same) few in
      within (guardians_of other s) (is_current_of other g) few_of_other
        (length-filter_by_append (is_current_of other) s.guardians g)
  | inr differ ↦
      outside (guardians_of other s) h
        (rw differ at (length-filter_by_append (is_current_of other) s.guardians g))
]
  where
    eq-of-test : (m n : ℕ) → (m == n) ≡ true → m ≡ n
    eq-of-test m n e = ground arith

    within :
        {k : ℕ} (n : ℕ) (b : Bool)
        → leb max_guardians n ≡ false
        → k ≡ n + (if b then 1 else 0)
        → k ≤ max_guardians
    within n b few e = ground arith

    outside : {k : ℕ} (n : ℕ) → n ≤ max_guardians → k ≡ n + 0 → k ≤ max_guardians
    outside n h e = omega arith

module _ (env : Env) (now owner : ℕ) (name email : Text) (s : World) where
  -- Whatever its outcome, an invitation leaves every account with at most five guardians, pending
  -- and active, if it had at most five.
  pub add_guardian-limit :
      (other : ℕ)
      → guardians_of other s ≤ max_guardians
      → guardians_of other (add_guardian env now owner name email s).1 ≤ max_guardians
  unfolding add_guardian notify new_token
  add_guardian-limit other h = elim (Option-cases (find_by (λ u. u.id == owner) s.users)) [
    | inl missing ↦ rw missing h
    | inr (u, found) ↦
        rw found (elim (Bool-cases (text_eq (to_lower (trim email)) (to_lower u.email))) [
          | inl self ↦ rw self h
          | inr another ↦
              rw another
                (elim (Bool-cases (
                  any_by (λ g. text_eq g.email (to_lower (trim email)))
                    (filter_by (is_current_of owner) s.guardians))) [
                      | inl twice ↦ rw twice h
                      | inr new ↦
                          rw new (elim (Bool-cases (leb max_guardians (guardians_of owner s))) [
                            | inl full ↦ rw full h
                            | inr few ↦
                                rw few
                                  (elim (Bool-cases (
                                    env.delivers (
                                      guardian_invite (to_lower (trim email))
                                        (env.random s.drawn)))) [
                                          | inl delivered ↦
                                              rw delivered (inserted owner other _ s refl few h)
                                          | inr undelivered ↦
                                              rw undelivered (inserted owner other _ s refl few h)
                                        ])
                          ])
                    ])
        ])
  ]
