-- ===== src/Backend/Loops/Masks.antt =====
-- The masked user list (backend/cache.go): no index is out of range, and no address shows.
use etcd_play.Base.{
  ℕ, zero, suc, ◌≤◌, ◌≡◌, refl, sym, ◌∙◌, false, some, List, [], ◌∷◌, ◌++◌, All, length, arith,
}
use etcd_play.Base.Text.{Text, codes}
use etcd_play.Base.Map.{keys}
use etcd_play.Base.Outcome.{Returns}
use etcd_play.Backend.State.{App}
use etcd_play.Backend.Loops.{mask, mask_users, shorten, list_users}

-- An id of nine bytes or more is masked, and what stands under the mask does not matter.
mask-some : (u : Text) → 9 ≤ length u → (t : Text) × (mask u ≡ some t)
unfolding mask
mask-some (a ∷ b ∷ c ∷ d ∷ e ∷ f ∷ g ∷ h ∷ i ∷ rest) l = (_, refl)
mask-some [] l = absurd (omega arith)
mask-some _ l = absurd (omega arith)

abbrev LongIds : List Text → Type 0
LongIds us = All (λ u. 9 ≤ length u) us

mask_users-some :
    (n : ℕ) (us : List Text) → LongIds us → (ts : List Text) × (mask_users n us ≡ some ts)
unfolding mask_users
mask_users-some zero us h = ([], refl)
mask_users-some (suc n) [] h = ([], refl)
mask_users-some (suc n) (u ∷ us) h =
    let (t, e) = mask-some u h.0 in
    let (ts, e') = mask_users-some n us h.1 in (shorten t ∷ ts, rw (e, mask_users) (rw e'))

-- When every user id has at least nine bytes and the mutex is free, listing the users returns, with
-- the mutex free again and nothing else changed.
pub list_users_total :
    (a : App)
    → a.locked ≡ false
    → All (λ u. 9 ≤ length u) (keys a.users)
    → Returns (list_users a) (λ text a'. a' ≡ a)
unfolding list_users
list_users_total a free h = let (ts, e) = mask_users-some 21 (keys a.users) h in ground (arith, e)

mask_seven :
    (a b : ℕ) (x rest : Text)
    → length x ≡ 7
    → mask (a ∷ b ∷ (x ++ rest)) ≡ some (a ∷ b ∷ (codes "xxxxxxx" ++ rest))
unfolding mask
mask_seven a b (c ∷ d ∷ e ∷ f ∷ g ∷ h ∷ i ∷ []) rest l = refl
mask_seven a b [] rest l = absurd (omega arith)
mask_seven a b _ rest l = absurd (omega arith)

-- Two ids that differ only from the third to the ninth byte are listed alike.
pub mask_hides :
    (a b : ℕ) (x y rest : Text)
    → length x ≡ 7
    → length y ≡ 7
    → mask (a ∷ b ∷ (x ++ rest)) ≡ mask (a ∷ b ∷ (y ++ rest))
mask_hides a b x y rest h k = mask_seven a b x rest h ∙ sym (mask_seven a b y rest k)
