-- ===== src/Pixel/Positions.antt =====
-- `get_pos`: the position of a grid point in the list of pixels.
use native.Mathlib.Decide.{dec_lt}
use c_client.Prelude.{
  ℕ, zero, suc, ◌+◌, ◌<◌, ◌≡◌, refl, ◌≢◌, ap, ◌∙◌, ◌↔◌, ◌⊎◌, inl, inr, true, false, some, List, [],
  ◌∷◌, arith, get_elem?, Bool-cases,
}
use c_client.Prelude.Int.{ℤ, pos, negsuc, eq_ℤ_iff}
use c_client.Extension.{GridPoint, grid_point, PixelInfo}
use c_client.LinkedList.{enum_values}
use c_client.Pixel.{SearchPair, same_point, get_pos_enum, get_pos}

same_point_iff : (p q : GridPoint) → (same_point p q ≡ true) ↔ (p ≡ q)
unfolding same_point
same_point_iff p q = ground (arith, eq_ℤ_iff p.x q.x, eq_ℤ_iff p.y q.y)

same_point-false : (p q : GridPoint) → same_point p q ≡ false → p ≢ q
same_point-false p q h e = ground (arith, same_point_iff p q)

-- The pixel at index `i` lies at the point, and none behind it does.
pub record LastAt (infos : List PixelInfo) (key : GridPoint) (i : ℕ) : Type 0 where
  pub holder : (info : PixelInfo) × (get_elem? infos i ≡ some info) × (info.grid ≡ key)
  pub last : (j : ℕ) (info : PixelInfo) → i < j → get_elem? infos j ≡ some info → info.grid ≢ key

-- No pixel lies at the point.
abbrev pub NoneAt : List PixelInfo → GridPoint → Type 0
NoneAt infos key = (j : ℕ) (info : PixelInfo) → get_elem? infos j ≡ some info → info.grid ≢ key

-- what the search has left in `ret`, started with `old` there and `cnt` entries counted
abbrev Search : List PixelInfo → GridPoint → ℕ → ℤ → ℤ → Type 0
Search infos key cnt old r =
    ((r ≡ old) × NoneAt infos key) ⊎ ((i : ℕ) × (r ≡ pos (cnt + i)) × LastAt infos key i)

NoneAt-cons :
    (v : PixelInfo) (vs : List PixelInfo) (key : GridPoint)
    → v.grid ≢ key
    → NoneAt vs key
    → NoneAt (v ∷ vs) key
NoneAt-cons v vs key ne out zero info e = ground arith
NoneAt-cons v vs key ne out (suc j) info e = out j info e

LastAt-zero :
    (v : PixelInfo) (vs : List PixelInfo) (key : GridPoint)
    → v.grid ≡ key
    → NoneAt vs key
    → LastAt (v ∷ vs) key 0
LastAt-zero v vs key at out = record { holder = (v, refl, at); last = behind }
  where
    behind : (j : ℕ) (info : PixelInfo) → 0 < j → get_elem? (v ∷ vs) j ≡ some info → info.grid ≢ key
    behind zero info lt e = absurd (omega arith)
    behind (suc j) info lt e = out j info e

LastAt-suc :
    (v : PixelInfo) (vs : List PixelInfo) (key : GridPoint) (i : ℕ)
    → LastAt vs key i
    → LastAt (v ∷ vs) key (suc i)
LastAt-suc v vs key i at = record { holder = at.holder; last = behind }
  where
    behind :
        (j : ℕ) (info : PixelInfo) → suc i < j → get_elem? (v ∷ vs) j ≡ some info → info.grid ≢ key
    behind zero info lt e = absurd (omega arith)
    behind (suc j) info lt e = at.last j info (omega arith) e

Search-cons :
    (v : PixelInfo) (vs : List PixelInfo) (sp : SearchPair) (r : ℤ)
    → Search vs sp.key (sp.cnt + 1) (get_pos_enum v sp).ret r
    → Search (v ∷ vs) sp.key sp.cnt sp.ret r
unfolding get_pos_enum
Search-cons v vs sp r (inr (i, e, at)) =
    inr (suc i, e ∙ ap pos (omega arith), LastAt-suc v vs sp.key i at)
Search-cons v vs sp r (inl (e, out)) = elim (Bool-cases (same_point v.grid sp.key)) [
  | inl hit ↦
      inr (0, ground arith, LastAt-zero v vs sp.key ((same_point_iff v.grid sp.key).0 hit) out)
  | inr miss ↦ inl (ground arith, NoneAt-cons v vs sp.key (same_point-false v.grid sp.key miss) out)
]

enum_values-Search :
    (vs : List PixelInfo) (sp : SearchPair)
    → Search vs sp.key sp.cnt sp.ret (enum_values vs get_pos_enum sp).ret
unfolding enum_values get_pos_enum
enum_values-Search [] sp = inl (refl, λ j info e. cc)
enum_values-Search (v ∷ vs) sp =
    Search-cons v vs sp (enum_values vs get_pos_enum (get_pos_enum v sp)).ret
      (enum_values-Search vs (get_pos_enum v sp))

get_pos-Search :
    (x y : ℤ) (infos : List PixelInfo)
    → Search infos (grid_point x y) 0 (negsuc 0) (get_pos x y infos)
unfolding get_pos
get_pos-Search x y infos =
    enum_values-Search infos (record { ret = negsuc 0; cnt = 0; key = grid_point x y })

LastAt-not-NoneAt :
    {infos : List PixelInfo} {key : GridPoint} {i : ℕ} → LastAt infos key i → ¬ NoneAt infos key
LastAt-not-NoneAt {i} at out = out i at.holder.0 at.holder.1 at.holder.2

LastAt-unique :
    {infos : List PixelInfo} {key : GridPoint} {i j : ℕ}
    → LastAt infos key i
    → LastAt infos key j
    → i ≡ j
LastAt-unique {i} {j} a b = elim (dec_lt i j) [
  | yes p ↦ absurd (a.last j b.holder.0 p b.holder.1 b.holder.2)
  | no p ↦ elim (dec_lt j i) [
    | yes q ↦ absurd (b.last i a.holder.0 q a.holder.1 a.holder.2)
    | no q ↦ omega arith
  ]
]

-- `get_pos` returns a position exactly when the pixel there is the last one at the point, and -1
-- exactly when no pixel is.
pub get_pos_lem :
    (x y : ℤ) (infos : List PixelInfo)
    → ((i : ℕ) → (get_pos x y infos ≡ pos i) ↔ LastAt infos (grid_point x y) i)
      × ((get_pos x y infos ≡ negsuc 0) ↔ NoneAt infos (grid_point x y))
get_pos_lem x y infos = elim (get_pos-Search x y infos) [
  | inl (e, out) ↦ (λ i. (λ e'. cc, λ at. absurd (LastAt-not-NoneAt at out)), (λ _. out, λ _. e))
  | inr (k, e, at) ↦ (
    λ i. (
      λ e'. let same : k ≡ i = ground arith in rw (← same) at,
      λ at'. rw (← LastAt-unique at at') (e ∙ ap pos (omega arith)),
    ),
    (λ e'. cc, λ out. absurd (LastAt-not-NoneAt at out)),
  )
]

-- Distinct points have distinct positions.
pub get_pos-inj :
    (x y x' y' : ℤ) (infos : List PixelInfo) (i : ℕ)
    → get_pos x y infos ≡ pos i
    → get_pos x' y' infos ≡ pos i
    → (x ≡ x') × (y ≡ y')
get_pos-inj x y x' y' infos i e e' =
    let a = ((get_pos_lem x y infos).0 i).0 e in
    let b = ((get_pos_lem x' y' infos).0 i).0 e' in
    same_holder a.holder.2 b.holder.2 a.holder.1 b.holder.1
  where
    same_holder :
        {p q : PixelInfo}
        → p.grid ≡ grid_point x y
        → q.grid ≡ grid_point x' y'
        → get_elem? infos i ≡ some p
        → get_elem? infos i ≡ some q
        → (x ≡ x') × (y ≡ y')
    same_holder hp hq gp gq = ground arith

-- A position lies in the list.
pub get_pos-lt :
    (x y : ℤ) (infos : List PixelInfo) (i : ℕ)
    → get_pos x y infos ≡ pos i
    → (info : PixelInfo) × (get_elem? infos i ≡ some info) × (info.grid ≡ grid_point x y)
get_pos-lt x y infos i e = (((get_pos_lem x y infos).0 i).0 e).holder
