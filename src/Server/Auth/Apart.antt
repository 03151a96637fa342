-- ===== src/Server/Auth/Apart.antt =====
-- Lists of accounts in which no two share a name or an address.
use cribbager.Common.{
  Text, text_eq, ◌≡◌, Bool, false, List, [], ◌∷◌, All, arith, Bool-cases, inl, inr,
}
use cribbager.Server.Auth.Store.{User, clash, taken, set_user, with_password}

module _ (fold_eq : Text → Text → Bool) where
  -- No two users of the list clash.
  abbrev pub Apart : List User → Type 0
  Apart [] = Unit
  Apart (u ∷ us) = All (λ v. clash fold_eq u v ≡ false) us × Apart us

  pub taken-All :
      (us : List User) (u : User)
      → taken fold_eq us u ≡ false
      → All (λ v. clash fold_eq v u ≡ false) us
  unfolding taken
  taken-All [] u h = tt
  taken-All (v ∷ vs) u h = (ground arith, taken-All vs u (ground arith))

  set_user-All :
      (P : User → Type 0) (us : List User) (u : User) → All P us → P u → All P (set_user us u)
  unfolding set_user
  set_user-All P [] u h k = (k, tt)
  set_user-All P (v ∷ vs) u (h, hs) k = elim (Bool-cases (text_eq v.id u.id)) [
    | inl found ↦ rw found (k, hs)
    | inr other ↦ rw other (h, set_user-All P vs u hs k)
  ]

  flip-All :
      (us : List User) (u : User)
      → ((s t : Text) → fold_eq s t ≡ fold_eq t s)
      → All (λ v. clash fold_eq v u ≡ false) us
      → All (λ v. clash fold_eq u v ≡ false) us
  flip-All [] u s h = tt
  flip-All (v ∷ vs) u s (h, hs) =
      (rw (s u.username v.username, s u.email v.email) h, flip-All vs u s hs)

  pub set_user-Apart :
      (us : List User) (u : User)
      → ((s t : Text) → fold_eq s t ≡ fold_eq t s)
      → Apart us
      → All (λ v. clash fold_eq v u ≡ false) us
      → Apart (set_user us u)
  unfolding set_user
  set_user-Apart [] u s a h = (tt, tt)
  set_user-Apart (v ∷ vs) u s (av, a) (h, hs) = elim (Bool-cases (text_eq v.id u.id)) [
    | inl found ↦ rw found (flip-All vs u s hs, a)
    | inr other ↦
        rw other
          (set_user-All (λ w. clash fold_eq v w ≡ false) vs u av h, set_user-Apart vs u s a hs)
  ]

  with_password-All :
      (w : User) (us : List User) (id hash : Text)
      → All (λ v. clash fold_eq w v ≡ false) us
      → All (λ v. clash fold_eq w v ≡ false) (with_password us id hash)
  unfolding with_password
  with_password-All w [] id hash h = tt
  with_password-All w (u ∷ us) id hash (h, hs) = elim (Bool-cases (text_eq u.id id)) [
    | inl found ↦ rw found (h, hs)
    | inr other ↦ rw other (h, with_password-All w us id hash hs)
  ]

  pub with_password-Apart :
      (us : List User) (id hash : Text) → Apart us → Apart (with_password us id hash)
  unfolding with_password
  with_password-Apart [] id hash a = tt
  with_password-Apart (u ∷ us) id hash (h, a) = elim (Bool-cases (text_eq u.id id)) [
    | inl found ↦ rw found (h, a)
    | inr other ↦ rw other (with_password-All u us id hash h, with_password-Apart us id hash a)
  ]
