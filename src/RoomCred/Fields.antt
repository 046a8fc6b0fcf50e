-- ===== src/RoomCred/Fields.antt =====
-- internal/roomcred/roomcred.go: `decode` reads exactly what `encode` lays out.
use mathlib.Core.Path.{ap₂}
use mathlib.Core.List.{append_assoc}
use hoersaal.Base.{
  ℕ, zero, suc, ◌≤◌, ◌≡◌, refl, sym, ap, subst, ◌∙◌, Bool, true, false, [], ◌∷◌, ◌++◌, arith,
  Result, ok, err, ltb, if◌then◌else◌, ◌>>◌, refuse_if, length, length-append,
}
use hoersaal.Text.{Text}
use hoersaal.Pool.Proof.{big_endian}
use hoersaal.RoomCred.Layout.{
  Error, malformed, max_field_bytes, take, drop, of_big_endian, field_bytes, read_field,
}
use hoersaal.RoomCred.Numbers.{AreBytes, of_big_endian_2, big_endian_2_of}

pub take-append : (s t : Text) → take (length s) (s ++ t) ≡ s
take-append [] t = refl
take-append (b ∷ s) t = ap (λ u. b ∷ u) (take-append s t)

pub drop-append : (s t : Text) → drop (length s) (s ++ t) ≡ t
drop-append [] t = refl
drop-append (b ∷ s) t = drop-append s t

pub take-drop : (n : ℕ) (s : Text) → s ≡ take n s ++ drop n s
take-drop zero s = refl
take-drop (suc n) [] = refl
take-drop (suc n) (b ∷ s) = ap (λ u. b ∷ u) (take-drop n s)

pub length-take : (n : ℕ) (s : Text) → n ≤ length s → length (take n s) ≡ n
length-take zero s h = refl
length-take (suc n) [] h = absurd (omega arith)
length-take (suc n) (b ∷ s) h = ap suc (length-take n s (omega arith))

pub drop-AreBytes : (n : ℕ) (s : Text) → AreBytes s → AreBytes (drop n s)
drop-AreBytes zero s a = a
drop-AreBytes (suc n) [] a = a
drop-AreBytes (suc n) (b ∷ s) a = drop-AreBytes n s a.1

pub take-AreBytes : (n : ℕ) (s : Text) → AreBytes s → AreBytes (take n s)
take-AreBytes zero s a = tt
take-AreBytes (suc n) [] a = a
take-AreBytes (suc n) (b ∷ s) a = (a.0, take-AreBytes n s a.1)

refuse_twice {ℓ κ} :
    {E : Type ℓ} {A : Type κ} (a b : Bool) (e : E) (v : A)
    → (refuse_if a e >> (refuse_if b e >> ok v)) ≡ (if a then err e else if b then err e else ok v)
refuse_twice true b e v = refl
refuse_twice false true e v = refl
refuse_twice false false e v = refl

-- A field at two bytes of length and what follows them.
read_field_at :
    (x y n : ℕ) (r : Text)
    → of_big_endian (x ∷ y ∷ []) ≡ n
    → read_field (x ∷ y ∷ r) ≡ (
        if ltb max_field_bytes n
        then err malformed
        else if ltb (length r) n
        then err malformed
        else ok (take n r, drop n r))
unfolding read_field
read_field_at x y n r h =
    let long : ltb (suc (suc (length r))) 2 ≡ false = ground arith in
    rw (long, h)
      (refuse_twice (ltb max_field_bytes n) (ltb (length r) n) malformed (take n r, drop n r))

-- A field is read back, with what follows it.
pub read_field-field_bytes :
    (s t : Text) → length s ≤ max_field_bytes → read_field (field_bytes s ++ t) ≡ ok (s, t)
unfolding field_bytes big_endian
read_field-field_bytes s t h =
    let size : of_big_endian (big_endian 2 (length s)) ≡ length s =
      of_big_endian_2 (length s) (omega arith) in
    let short : ltb max_field_bytes (length s) ≡ false = ground arith in
    let fits : ltb (length (s ++ t)) (length s) ≡ false = ground (arith, length-append s t) in
    read_field_at _ _ (length s) (s ++ t) size
    ∙ rw (short, fits, take-append s t, drop-append s t) refl

too_short : (rest s t : Text) → ltb (length rest) 2 ≡ true → read_field rest ≡ ok (s, t) → ⊥
unfolding read_field
too_short rest s t e h =
    let bad : ◌≡◌ {A = Result Error (Text × Text)} (err malformed) (ok (s, t)) =
      rw (e, read_field) at h in
    let x : Unit {0} ≡ ⊥ = cc in subst (λ (T : Type 0). T) x tt

if_if_ok :
    (a b : Bool) (u s v t : Text)
    → ◌≡◌ {A = Result Error (Text × Text)}
        (if a then err malformed else if b then err malformed else ok (u, v))
        (ok (s, t))
    → (a ≡ false) × (b ≡ false) × (u ≡ s) × (v ≡ t)
if_if_ok true b u s v t h = cc
if_if_ok false true u s v t h = cc
if_if_ok false false u s v t h = (refl, refl, cc, cc)

-- What is read was laid out by a field.
pub read_field_lem :
    (rest s t : Text)
    → AreBytes rest
    → read_field rest ≡ ok (s, t)
    → (rest ≡ field_bytes s ++ t) × (length s ≤ max_field_bytes) × AreBytes t
unfolding field_bytes
read_field_lem [] s t a h = absurd (too_short [] s t refl h)
read_field_lem (x ∷ []) s t a h = absurd (too_short (x ∷ []) s t refl h)
read_field_lem (x ∷ y ∷ r) s t a h =
    let n : ℕ = of_big_endian (x ∷ y ∷ []) in
    let read = sym (read_field_at x y n r refl) ∙ h in
    let (small, fits, same_s, same_t) =
      if_if_ok (ltb max_field_bytes n) (ltb (length r) n) (take n r) s (drop n r) t read in
    let size : length s ≡ n = ap length (sym same_s) ∙ length-take n r (ground arith) in
    let front : big_endian 2 (length s) ≡ x ∷ y ∷ [] =
      ap (big_endian 2) size ∙ big_endian_2_of x y a.0 a.1.0 in
    let back : r ≡ s ++ t = take-drop n r ∙ ap₂ (λ u v. u ++ v) same_s same_t in
    (
      ap₂ (λ u v. u ++ v) (sym front) back ∙ append_assoc (big_endian 2 (length s)) s t,
      ground arith,
      subst AreBytes same_t (drop-AreBytes n r a.1.1),
    )
