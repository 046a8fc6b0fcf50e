-- ===== src/RoomCred/Verifying.antt =====
-- internal/roomcred/roomcred.go: what `Verify` accepts, and that it accepts what `Issue` minted.
use mathlib.Core.Path.{ap₂}
use hoersaal.Base.{
  ℕ, ◌+◌, ◌*◌, ◌-◌, ◌≤◌, ◌<◌, ◌≡◌, ◌≢◌, refl, sym, ap, subst, ◌∙◌, ◌↔◌, false, not, some, List, [],
  ◌++◌, arith, Result, ok, err, ltb, leb, pos, ltb_ℤ, ◌≤ℤ◌, ◌==◌, ==_iff, ==_refl, ◌>>◌, refuse_if,
  >>=-eq-ok, refuse_if-eq-ok, Option-cases, inl, inr, length, length-append,
}
use hoersaal.Text.{Text, is_empty, is_empty-false, is_empty_named, text_eq}
use hoersaal.Time.{Time, unix_bits}
use hoersaal.Pool.Proof.{big_endian}
use hoersaal.RoomCred.Layout.{
  Error, malformed, claims_refused, bad_signature, wrong_conference, not_yet_valid, expired, Claims,
  max_field_bytes, field_bytes, encode_claims, decode_claims, take, drop,
}
use hoersaal.RoomCred.Methods.{
  Base64, mac_bytes, max_token_bytes, check_claims, issue, verify_raw, verify,
}
use hoersaal.RoomCred.Numbers.{AreBytes, whole, IsTime}
use hoersaal.RoomCred.Fields.{take-append, drop-append, take-drop, take-AreBytes}
use hoersaal.RoomCred.Decoding.{
  IsSmall, IsWhole, rounded, decode_claims-encode_claims, decode_claims_lem,
}

-- The bytes that a token for these claims stands for.
unfoldable pub signed : (Text → Text → Text) → Text → Claims → Text
signed mac key c = encode_claims c ++ mac key (encode_claims c)

-- What an accepted credential is: signed under the key, for this room, and in its window now.
pub record Holds (mac : Text → Text → Text) (base64 : Base64) (key token conference : Text)
    (now : Time) (c : Claims) : Type 0 where
  pub for_a_room : conference ≢ []
  pub short : length token ≤ max_token_bytes
  pub signed_under_key : base64.decode token ≡ some (signed mac key c)
  pub small : IsSmall c
  pub opens : IsWhole c.not_before
  pub closes : IsWhole c.expires
  pub for_this_room : c.conference ≡ conference
  pub opened : c.not_before ≤ℤ pos now
  pub not_closed : pos now ≤ℤ c.expires

length-encode_claims : (c : Claims) → IsSmall c → length (encode_claims c) ≤ 407
unfolding encode_claims field_bytes big_endian
length-encode_claims c (a, b, d) =
    let window = big_endian 8 (unix_bits c.not_before) ++ big_endian 8 (unix_bits c.expires) in
    let tail : List ℕ = field_bytes c.role ++ window in
    let mid : List ℕ = field_bytes c.subject ++ tail in
    omega (
      arith,
      length-append c.conference mid,
      length-append c.subject tail,
      length-append c.role window,
    )

length-signed :
    (mac : Text → Text → Text) (key : Text) (c : Claims)
    → length (signed mac key c) ≡ length (encode_claims c ++ mac key (encode_claims c))
unfolding signed
length-signed mac key c = refl

encode_claims-pos : (c : Claims) → 0 < length (encode_claims c)
unfolding encode_claims
encode_claims-pos c = omega arith

-- The checks that follow the decoding.
abbrev checks : Text → Time → Claims → Result Error Claims
checks conference now d = do
  refuse_if (not (d.conference == conference)) wrong_conference
  refuse_if (ltb_ℤ (pos now) d.not_before) not_yet_valid
  refuse_if (ltb_ℤ d.expires (pos now)) expired
  ok d

checks_iff :
    (conference : Text) (now : Time) (d c : Claims)
    → (checks conference now d ≡ ok c)
      ↔ ((d ≡ c) × (c.conference ≡ conference) × (c.not_before ≤ℤ pos now) × (pos now ≤ℤ c.expires))
checks_iff conference now d c = (
  λ h.
      let (room, h₁) =
        refuse_if-eq-ok (not (d.conference == conference)) wrong_conference
          (refuse_if (ltb_ℤ (pos now) d.not_before) not_yet_valid
            >> (refuse_if (ltb_ℤ d.expires (pos now)) expired >> ok d))
          h in
      let (opened, h₂) =
        refuse_if-eq-ok (ltb_ℤ (pos now) d.not_before) not_yet_valid
          (refuse_if (ltb_ℤ d.expires (pos now)) expired >> ok d) h₁ in
      let (open_still, h₃) = refuse_if-eq-ok (ltb_ℤ d.expires (pos now)) expired (ok d) h₂ in
      let same : d ≡ c = cc in
      let this_room : d.conference ≡ conference = ground (arith, ==_iff d.conference conference) in
      let after : d.not_before ≤ℤ pos now = ground arith in
      let before : pos now ≤ℤ d.expires = ground arith in
      (
        same,
        subst (λ (x : Claims). x.conference ≡ conference) same this_room,
        subst (λ (x : Claims). x.not_before ≤ℤ pos now) same after,
        subst (λ (x : Claims). pos now ≤ℤ x.expires) same before,
      ),
  λ (same, room, after, before).
      let passes : checks conference now c ≡ ok c =
        ground (arith, ==_iff c.conference conference) in
      subst (λ (x : Claims). checks conference now x ≡ ok c) (sym same) passes,
)

rounded_whole : (c : Claims) → IsWhole c.not_before → IsWhole c.expires → rounded c ≡ c
rounded_whole c h k = cc (h.0, k.0)

module _ (mac : Text → Text → Text) (base64 : Base64)
    (sized : (k m : Text) → length (mac k m) ≡ mac_bytes) where
  verify_raw_sound :
      (key raw conference : Text) (now : Time) (c : Claims)
      → AreBytes raw
      → verify_raw mac base64 key raw conference now ≡ ok c
      → (raw ≡ signed mac key c)
        × IsSmall c
        × IsWhole c.not_before
        × IsWhole c.expires
        × (c.conference ≡ conference)
        × (c.not_before ≤ℤ pos now)
        × (pos now ≤ℤ c.expires)
  unfolding verify_raw signed
  verify_raw_sound key raw conference now c a h =
      let n : ℕ = length raw - mac_bytes in
      let (long, h₁) = refuse_if-eq-ok (leb (length raw) mac_bytes) malformed _ h in
      let (same_mac, h₂) =
        refuse_if-eq-ok (not (drop n raw == mac key (take n raw))) bad_signature _ h₁ in
      let (d, decoded, h₃) = >>=-eq-ok (decode_claims (take n raw)) (checks conference now) h₂ in
      let (same, room, opened, open_still) = (checks_iff conference now d c).0 h₃ in
      let (payload, small, opens, closes) =
        decode_claims_lem (take n raw) c (take-AreBytes n raw a) (decoded ∙ ap ok same) in
      let mac_same : drop n raw ≡ mac key (take n raw) =
        ground (arith, ==_iff (drop n raw) (mac key (take n raw))) in
      (
        take-drop n raw ∙ ap₂ (λ u v. u ++ v) payload (mac_same ∙ ap (mac key) payload),
        small,
        opens,
        closes,
        room,
        opened,
        open_still,
      )

  verify_raw_complete :
      (key conference : Text) (now : Time) (c : Claims)
      → IsSmall c
      → IsTime c.not_before
      → IsTime c.expires
      → c.conference ≡ conference
      → whole c.not_before ≤ℤ pos now
      → pos now ≤ℤ whole c.expires
      → verify_raw mac base64 key (signed mac key c) conference now ≡ ok (rounded c)
  unfolding verify_raw signed
  verify_raw_complete key conference now c small h k room opened open_still =
      let body : Text = encode_claims c in
      let tag : Text = mac key body in
      let sum : length (body ++ tag) ≡ length body + mac_bytes =
        length-append body tag ∙ ap (λ n. length body + n) (sized key body) in
      let some_bytes : 0 < length body = encode_claims-pos c in
      let long : leb (length (body ++ tag)) mac_bytes ≡ false = ground arith in
      let cut : length (body ++ tag) - mac_bytes ≡ length body = omega (arith, sum) in
      rw
        (
          cut,
          long,
          take-append body tag,
          drop-append body tag,
          ==_refl tag,
          decode_claims-encode_claims c small h k,
        )
        ((checks_iff conference now (rounded c) (rounded c)).1 (refl, room, opened, open_still))

  issue_made :
      (c : Claims) (key token : Text)
      → issue mac base64 key c ≡ ok token
      → (check_claims c ≡ ok tt) × (base64.encode (signed mac key c) ≡ token)
  unfolding issue signed
  issue_made c key token h =
      let (t, checked, made) = >>=-eq-ok (check_claims c) _ h in (checked, cc made)

  -- For a digest of 32 bytes and a decoder that answers bytes, Verify gives claims exactly when a
  -- room is asked for, the token has at most 1024 bytes and decodes to the claims' own bytes
  -- followed by the digest of them under the key, each field has at most 128 bytes, the window is
  -- in whole seconds, the claims are for that room, and now lies in the window, its ends included.
  pub verify_iff :
      (key token conference : Text) (now : Time) (c : Claims)
      → ((s b : Text) → base64.decode s ≡ some b → AreBytes b)
      → (verify mac base64 key token conference now ≡ ok c)
        ↔ Holds mac base64 key token conference now c
  unfolding verify
  verify_iff key token conference now c bytes = (
    λ h.
        let (room, h₁) = refuse_if-eq-ok (is_empty conference) claims_refused _ h in
        let (short, h₂) = refuse_if-eq-ok (ltb max_token_bytes (length token)) malformed _ h₁ in
        elim (Option-cases (base64.decode token)) [
          | inl e ↦ absurd (
              let bad : err malformed ≡ ok c = rw e at h₂ in
              let x : Unit {0} ≡ ⊥ = cc in subst (λ (T : Type 0). T) x tt)
          | inr (raw, e) ↦
              let (made, small, opens, closes, this_room, opened, open_still) =
                verify_raw_sound key raw conference now c (bytes token raw e) (rw e at h₂) in
              record {
                for_a_room = is_empty-false conference room;
                short = ground arith;
                signed_under_key = e ∙ ap some made;
                small = small;
                opens = opens;
                closes = closes;
                for_this_room = this_room;
                opened = opened;
                not_closed = open_still;
              }
        ],
    λ k.
        let within : ltb max_token_bytes (length token) ≡ false = ground (arith, k.short) in
        rw (is_empty_named conference k.for_a_room, within, k.signed_under_key)
          (verify_raw_complete key conference now c k.small k.opens.1 k.closes.1 k.for_this_room
              (subst (λ i. i ≤ℤ pos now) (sym k.opens.0) k.opened)
              (subst (λ i. pos now ≤ℤ i) (sym k.closes.0) k.not_closed)
            ∙ ap ok (rounded_whole c k.opens k.closes)),
  )

  -- What `Issue` has checked of the claims that it mints.
  issue_checked : (c : Claims) → check_claims c ≡ ok tt → (c.conference ≢ []) × IsSmall c
  unfolding check_claims
  issue_checked c h =
      let (room, h₁) = refuse_if-eq-ok (is_empty c.conference) claims_refused _ h in
      let (role, h₂) = refuse_if-eq-ok (is_empty c.role) claims_refused _ h₁ in
      let (a, h₃) =
        refuse_if-eq-ok (ltb max_field_bytes (length c.conference)) claims_refused _ h₂ in
      let (b, h₄) = refuse_if-eq-ok (ltb max_field_bytes (length c.subject)) claims_refused _ h₃ in
      let (d, h₅) = refuse_if-eq-ok (ltb max_field_bytes (length c.role)) claims_refused _ h₄ in
      (is_empty-false c.conference room, (ground arith, ground arith, ground arith))

  -- What Issue mints, Verify accepts for the room of the claims at any moment in the window as
  -- whole seconds, its ends included, and answers the claims with that window, for a digest of 32
  -- bytes an encoding that the decoder inverts and that is at most four thirds as long as the
  -- bytes, rounded up, and for ends whose seconds since the zero time int64 counts.
  pub verify-issue :
      (key token : Text) (now : Time) (c : Claims)
      → ((b : Text) → base64.decode (base64.encode b) ≡ some b)
      → ((b : Text) → 3 * length (base64.encode b) ≤ 4 * length b + 2)
      → IsTime c.not_before
      → IsTime c.expires
      → issue mac base64 key c ≡ ok token
      → whole c.not_before ≤ℤ pos now
      → pos now ≤ℤ whole c.expires
      → verify mac base64 key token c.conference now ≡ ok (rounded c)
  unfolding verify issue
  verify-issue key token now c back dense h k minted opened open_still =
      let (checked, made) = issue_made c key token minted in
      let (room, small) = issue_checked c checked in
      let short : ltb max_token_bytes (length token) ≡ false =
        let size = length-append (encode_claims c) (mac key (encode_claims c)) in
        let tag = sized key (encode_claims c) in
        let whole_size = dense (signed mac key c) in
        let body = length-encode_claims c small in
        let made_size = ap length made in let all = length-signed mac key c in ground arith in
      let decoded : base64.decode token ≡ some (signed mac key c) =
        subst (λ s. base64.decode s ≡ some (signed mac key c)) made (back (signed mac key c)) in
      rw (is_empty_named c.conference room, short, decoded)
        (verify_raw_complete key c.conference now c small h k refl opened open_still)
