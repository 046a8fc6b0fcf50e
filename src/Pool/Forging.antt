-- ===== src/Pool/Forging.antt =====
-- internal/pool/pool.go: what it takes for a proof made for one unit to admit another.
use hoersaal.Base.{
  ◌/◌, ◌^◌, ◌<◌, ◌≡◌, ◌≢◌, sym, ◌∙◌, ◌⊎◌, inl, inr, Option, ok, arith, length, ◌==◌, ==_iff,
  Bool-cases, true,
}
use hoersaal.Text.{Text, text_eq}
use hoersaal.Placement.Records.{UnitId}
use hoersaal.Time.{Time, second}
use hoersaal.Pool.Proof.{Registration, proof_of, prove, payload}
use hoersaal.Pool.Methods.{Pool, register}
use hoersaal.Pool.Joining.{register_iff}
use hoersaal.Pool.Payload.{payload-injective}

prove-proof_of :
    (mac : Text → Text → Text) (key : Text) (v : UnitId) (t : Time) (b : Text)
    → prove mac key v t ≡ ok b
    → proof_of mac key v t ≡ b
unfolding prove
prove-proof_of mac key v t b h = ground arith

same_or_apart : (x y : Text) → (x ≡ y) ⊎ (x ≢ y)
same_or_apart x y = elim (Bool-cases (x == y)) [
  | inl q ↦ inl ((==_iff x y).0 q)
  | inr q ↦ inr (λ e. let same : (x == y) ≡ true = (==_iff x y).1 e in cc)
]

module _ {W P : Type 0} where
  -- A registration that a pool accepts with a proof that was made under its key is for the unit and
  -- the whole second that the proof was made for, or else the keyed digest gives one value for two
  -- different payloads, that of the registration and the one proved; both names are shorter than
  -- 2^16 bytes and both moments less than 2^64 seconds after the zero time.
  pub register-prove :
      (mac : Text → Text → Text) (p q : Pool W P) (r : Registration) (port : Option P) (now : Time)
      (v : UnitId) (t : Time)
      → length r.unit < 2 ^ 16
      → length v < 2 ^ 16
      → r.issued_at / second < 2 ^ 64
      → t / second < 2 ^ 64
      → prove mac p.key v t ≡ ok r.proof
      → register mac p r port now ≡ ok q
      → ((r.unit ≡ v) × (r.issued_at / second ≡ t / second))
        ⊎ ((payload r.unit r.issued_at ≢ payload v t)
            × (mac p.key (payload r.unit r.issued_at) ≡ mac p.key (payload v t)))
  unfolding proof_of
  register-prove mac p q r port now v t lu lv ls lt made accepted =
      elim (same_or_apart (payload r.unit r.issued_at) (payload v t)) [
        | inl e ↦ inl (payload-injective r.unit v r.issued_at t lu lv ls lt e)
        | inr e ↦
            let j = (register_iff mac p r port now q).0 accepted in
            inr (e, j.proof_holds ∙ sym (prove-proof_of mac p.key v t r.proof made))
      ]
