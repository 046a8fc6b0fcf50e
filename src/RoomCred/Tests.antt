-- ===== src/RoomCred/Tests.antt =====
-- internal/roomcred/roomcred.go: a credential of an hour, minted, verified and refused.
use hoersaal.Base.{◌+◌, ◌*◌, ◌≡◌, refl, ◌↔◌, [], arith, ok, err}
use hoersaal.Text.{codes, is_empty, text_beq}
use hoersaal.Time.{second, seconds_of, unix_bits, of_unix, gap, wrap}
use hoersaal.Pool.Proof.{big_endian}
use hoersaal.RoomCred.Layout.{
  claims_refused, bad_signature, wrong_conference, expired, not_yet_valid, malformed, field_bytes,
  encode_claims, decode_claims, of_big_endian,
}
use hoersaal.RoomCred.Methods.{issue, verify}
use hoersaal.RoomCred.Numbers.{whole}
use hoersaal.RoomCred.Verifying.{Holds, signed, verify_iff, verify-issue}
use hoersaal.RoomCred.Examples.{
  digest, plain, guarded, guarded_bytes, start, ticket, key, token, minted, noon,
}
use hoersaal.RoomCred.Decoding.{rounded}

-- Everything that a run of the model computes with.
program : Unit {0}
unfolding is_empty text_beq seconds_of unix_bits of_unix gap wrap big_endian field_bytes
    encode_claims decode_claims of_big_endian issue verify whole signed
program = tt

refusals :
    (verify digest plain key token (codes "c2") noon ≡ err wrong_conference)
    × (verify digest plain (codes "k") token (codes "c1") noon ≡ err bad_signature)
    × (verify digest plain key token (codes "c1") ((start + 3_601) * second) ≡ err expired)
    × (verify digest plain key token (codes "c1") 0 ≡ err not_yet_valid)
    × (verify digest plain key (codes "short") (codes "c1") noon ≡ err malformed)
    × (issue digest plain key (record ticket { role = [] }) ≡ err claims_refused)
unfolding program
refusals = (refl, refl, refl, refl, refl, refl)

verify-issue_example : verify digest plain key token (codes "c1") noon ≡ ok (rounded ticket)
unfolding program
verify-issue_example =
    verify-issue digest plain (λ k m. refl) key token noon ticket (λ b. refl) (λ b. omega arith)
      (omega arith, omega arith) (omega arith, omega arith) minted (omega arith) (omega arith)

verify_iff_example :
    (verify digest guarded key token (codes "c1") noon ≡ ok (rounded ticket))
    ↔ Holds digest guarded key token (codes "c1") noon (rounded ticket)
verify_iff_example =
    verify_iff digest guarded (λ k m. refl) key token (codes "c1") noon (rounded ticket)
      guarded_bytes
