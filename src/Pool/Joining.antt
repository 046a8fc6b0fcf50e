-- ===== src/Pool/Joining.antt =====
-- internal/pool/pool.go: who `Register` admits.
use hoersaal.Base.{
  ◌≡◌, ◌≢◌, ◌↔◌, true, false, not, ◌+◌, ◌*◌, ◌^◌, ◌≤◌, ◌<◌, [], inl, inr, Option, some, arith, ok,
  err, ◌==◌, ==_iff, >>=-eq-ok, refuse_if-eq-ok, Option-cases,
}
use hoersaal.Text.{Text, text_eq, is_empty, is_empty-false, is_empty_named}
use hoersaal.Dict.{lookup}
use hoersaal.Time.{Time, second, sub, neg}
use hoersaal.Pool.Rows.{Error, starting, admitting, unset, is_state, is_state_iff, Row}
use hoersaal.Pool.Proof.{Registration, proof_of}
use hoersaal.Pool.Methods.{Pool, put, proof_age, too_old, check_proof, admit_row, register}
use hoersaal.Pool.Steps.{held-eq-ok}

-- Where the stated moment and now lie less than 2^63 nanoseconds apart, the moment passes the test
-- of age exactly when it lies at most 300 seconds to either side of now.
pub too_old_iff :
    (now at : Time)
    → now < at + 2 ^ 63
    → at < now + 2 ^ 63
    → (too_old now at ≡ false) ↔ ((now ≤ at + 300 * second) × (at ≤ now + 300 * second))
unfolding too_old proof_age sub neg
too_old_iff now at h k = (λ e. ground arith, λ e. ground arith)

-- A stated moment that lies at least 2^63 nanoseconds after now is never refused as too far from
-- now.
pub too_old_far : (now at : Time) → now + 2 ^ 63 ≤ at → too_old now at ≡ false
unfolding too_old proof_age sub neg
too_old_far now at h = ground arith

module _ {W P : Type 0} where
  -- What a registration that is accepted has shown, and the pool that it leaves.
  pub record Joined (mac : Text → Text → Text) (p : Pool W P) (r : Registration) (port : Option P)
      (now : Time) (q : Pool W P) : Type 0 where
    pub named : r.unit ≢ []
    pub handle : P
    pub port_given : port ≡ some handle
    pub proof_holds : proof_of mac p.key r.unit r.issued_at ≡ r.proof
    pub in_window : too_old now r.issued_at ≡ false
    pub row : Row W P
    pub row_held : lookup r.unit p.units ≡ some row
    pub was_starting : row.state ≡ starting
    pub was_reachable : row.reachable ≡ true
    pub result :
        q ≡ put p r.unit (record row { state = admitting; cause = unset; port = some handle })

  module _ (mac : Text → Text → Text) (p : Pool W P) (r : Registration) (port : Option P)
      (now : Time) (q : Pool W P) where
    register_sound : register mac p r port now ≡ ok q → Joined mac p r port now q
    unfolding register check_proof admit_row
    register_sound h =
        let (e, l) = refuse_if-eq-ok (is_empty r.unit) _ _ h in
        elim (Option-cases port) [
          | inl n ↦ absurd (let bad : err Error.no_port ≡ ok q = rw n at l in cc)
          | inr (handle, n) ↦
              let (x, c, m) =
                >>=-eq-ok (check_proof mac p.key r now)
                  (λ (y : Unit {0}). admit_row p r.unit handle) (rw n at l) in
              let (b, d) =
                refuse_if-eq-ok (not (proof_of mac p.key r.unit r.issued_at == r.proof)) _ _ c in
              let (u, o, k) = held-eq-ok p r.unit _ m in
              let (t, g) = refuse_if-eq-ok (not (is_state u.state starting)) _ _ k in
              let (s, i) = refuse_if-eq-ok (not u.reachable) _ _ g in
              record {
                named = is_empty-false r.unit e;
                handle = handle;
                port_given = n;
                proof_holds =
                    ground (arith, ==_iff (proof_of mac p.key r.unit r.issued_at) r.proof);
                in_window = ground arith;
                row = u;
                row_held = o;
                was_starting = ground (arith, is_state_iff u.state starting);
                was_reachable = ground arith;
                result = cc;
              }
        ]

    register_complete : Joined mac p r port now q → register mac p r port now ≡ ok q
    unfolding register check_proof admit_row
    register_complete j = ground (
      arith,
      is_empty_named r.unit j.named,
      ==_iff (proof_of mac p.key r.unit r.issued_at) r.proof,
      is_state_iff j.row.state starting,
    )

    -- Register succeeds exactly when the unit is named, a handle is given, the proof is the one
    -- that the pool's key makes, its moment passes the test of age, and the unit is held, starting
    -- and verified reachable; and then just that row becomes admitting, with the handle and no
    -- cause.
    pub register_iff : (register mac p r port now ≡ ok q) ↔ Joined mac p r port now q
    register_iff = (register_sound, register_complete)
