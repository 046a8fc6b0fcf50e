-- ===== src/RoomCred/Decoding.antt =====
-- internal/roomcred/roomcred.go: `decode` and `encode` are inverse to each other.
use mathlib.Core.Path.{ap₂}
use hoersaal.Base.{
  ℕ, ◌^◌, ◌≤◌, ◌<◌, ◌≡◌, refl, sym, ap, subst, ◌∙◌, not, [], ◌∷◌, ◌++◌, arith, ok, nat_eq,
  >>=-eq-ok, refuse_if-eq-ok, length, length-append,
}
use hoersaal.Text.{Text}
use hoersaal.Time.{Instant, unix_bits, of_unix}
use hoersaal.Pool.Proof.{big_endian}
use hoersaal.RoomCred.Layout.{
  malformed, unknown_version, Claims, version, max_field_bytes, take, drop, of_big_endian,
  field_bytes, encode_claims, read_field, decode_fields, decode_claims, with_window,
}
use hoersaal.RoomCred.Numbers.{
  AreBytes, whole, IsTime, of_big_endian_8, of_big_endian-lt, big_endian_8_of, unix_bits-lt,
  of_unix-unix_bits, unix_bits-of_unix, of_unix-whole,
}
use hoersaal.RoomCred.Fields.{
  read_field-field_bytes, read_field_lem, take-drop, length-take, drop-AreBytes, take-AreBytes,
}

-- No text field is longer than a credential may carry.
abbrev pub IsSmall : Claims → Type 0
IsSmall c =
    (length c.conference ≤ max_field_bytes)
    × (length c.subject ≤ max_field_bytes)
    × (length c.role ≤ max_field_bytes)

-- The claims with their window in whole seconds.
abbrev pub rounded : Claims → Claims
rounded c = record c { not_before = whole c.not_before; expires = whole c.expires }

length-big_endian_8 : (n : ℕ) → length (big_endian 8 n) ≡ 8
unfolding big_endian
length-big_endian_8 n = refl

-- The last 16 bytes give the window.
with_window_read :
    (conference subject role : Text) (m n : ℕ)
    → m < 2 ^ 64
    → n < 2 ^ 64
    → with_window conference subject role (big_endian 8 m ++ big_endian 8 n)
      ≡ ok (record {
        conference = conference;
        subject = subject;
        role = role;
        not_before = of_unix m;
        expires = of_unix n;
      })
unfolding with_window big_endian
with_window_read conference subject role m n h k =
    rw (of_big_endian_8 m h, of_big_endian_8 n k) refl

pub decode_claims-encode_claims :
    (c : Claims)
    → IsSmall c
    → IsTime c.not_before
    → IsTime c.expires
    → decode_claims (encode_claims c) ≡ ok (rounded c)
unfolding decode_claims encode_claims
decode_claims-encode_claims c small h k =
    rw
      (
        read_field-field_bytes c.conference _ small.0,
        read_field-field_bytes c.subject _ small.1,
        read_field-field_bytes c.role _ small.2,
        decode_fields,
      )
      (with_window_read c.conference c.subject c.role (unix_bits c.not_before) (unix_bits c.expires)
          (unix_bits-lt c.not_before) (unix_bits-lt c.expires)
        ∙ rw (of_unix-unix_bits c.not_before h, of_unix-unix_bits c.expires k) refl)

-- An instant that a credential can carry: whole seconds of a `time.Time`.
abbrev pub IsWhole : Instant → Type 0
IsWhole i = (whole i ≡ i) × IsTime i

-- Claims with these fields, and with a window that is laid out as these bytes.
abbrev Laid : Text → Text → Text → Text → Claims → Type 0
Laid conference subject role window c =
    (c.conference ≡ conference)
    × (c.subject ≡ subject)
    × (c.role ≡ role)
    × (window ≡ big_endian 8 (unix_bits c.not_before) ++ big_endian 8 (unix_bits c.expires))
    × IsWhole c.not_before
    × IsWhole c.expires

-- A half of the window is laid out by the moment that is read from it.
half_lem :
    (s : Text)
    → AreBytes s
    → length s ≡ 8
    → (s ≡ big_endian 8 (unix_bits (of_unix (of_big_endian s))))
      × IsWhole (of_unix (of_big_endian s))
half_lem s a h =
    let low : of_big_endian s < 2 ^ 64 = of_big_endian-lt s a h in
    (
      sym (big_endian_8_of s a h)
          ∙ ap (big_endian 8) (sym (unix_bits-of_unix (of_big_endian s) low)),
      of_unix-whole (of_big_endian s) low,
    )

-- The window that is read was laid out by one.
with_window_lem :
    (conference subject role window : Text) (c : Claims)
    → AreBytes window
    → with_window conference subject role window ≡ ok c
    → Laid conference subject role window c
unfolding with_window
with_window_lem conference subject role window c a h =
    let made_of : Claims = record {
      conference = conference;
      subject = subject;
      role = role;
      not_before = of_unix (of_big_endian (take 8 window));
      expires = of_unix (of_big_endian (drop 8 window));
    } in
    let (sized, made) =
      refuse_if-eq-ok (not (nat_eq (length window) 16)) malformed (ok made_of) h in
    let first = length-take 8 window (ground arith) in
    let halves = take-drop 8 window in
    let second : length (drop 8 window) ≡ 8 =
      let sum = length-append (take 8 window) (drop 8 window) in
      let whole_length = ap length halves in ground arith in
    let (front, opened) = half_lem (take 8 window) (take-AreBytes 8 window a) first in
    let (back, closed) = half_lem (drop 8 window) (drop-AreBytes 8 window a) second in
    let laid : Laid conference subject role window made_of =
      (refl, refl, refl, halves ∙ ap₂ (λ u v. u ++ v) front back, opened, closed) in
    subst (Laid conference subject role window) (cc made) laid

-- The parts of a payload, put together.
assembled :
    (v : ℕ) (rest conference subject role window rest₁ rest₂ : Text) (c : Claims)
    → v ≡ version
    → rest ≡ field_bytes conference ++ rest₁
    → rest₁ ≡ field_bytes subject ++ rest₂
    → rest₂ ≡ field_bytes role ++ window
    → c.conference ≡ conference
    → c.subject ≡ subject
    → c.role ≡ role
    → window ≡ big_endian 8 (unix_bits c.not_before) ++ big_endian 8 (unix_bits c.expires)
    → (length conference ≤ max_field_bytes)
      × (length subject ≤ max_field_bytes)
      × (length role ≤ max_field_bytes)
    → (v ∷ rest ≡ encode_claims c) × IsSmall c
unfolding encode_claims
assembled v rest conference subject role window rest₁ rest₂ c e l₁ l₂ l₃ s₁ s₂ s₃ w small =
    (cc, (rw s₁ small.0, rw s₂ small.1, rw s₃ small.2))

pub decode_claims_lem :
    (payload : Text) (c : Claims)
    → AreBytes payload
    → decode_claims payload ≡ ok c
    → (payload ≡ encode_claims c) × IsSmall c × IsWhole c.not_before × IsWhole c.expires
unfolding decode_claims decode_fields encode_claims
decode_claims_lem [] c a h = cc
decode_claims_lem (v ∷ rest) c a h =
    let (b, fields) =
      refuse_if-eq-ok (not (nat_eq v version)) unknown_version (decode_fields rest) h in
    let ((conference, rest₁), e₁, k₁) = >>=-eq-ok (read_field rest) _ fields in
    let ((subject, rest₂), e₂, k₂) = >>=-eq-ok (read_field rest₁) _ k₁ in
    let ((role, window), e₃, k₃) = >>=-eq-ok (read_field rest₂) _ k₂ in
    let (laid₁, small₁, a₁) = read_field_lem rest conference rest₁ a.1 e₁ in
    let (laid₂, small₂, a₂) = read_field_lem rest₁ subject rest₂ a₁ e₂ in
    let (laid₃, small₃, a₃) = read_field_lem rest₂ role window a₂ e₃ in
    let (same₁, same₂, same₃, laid, opened, closed) =
      with_window_lem conference subject role window c a₃ k₃ in
    let (payload_same, small) =
      assembled v rest conference subject role window rest₁ rest₂ c (ground arith) laid₁ laid₂ laid₃
        same₁ same₂ same₃ laid (small₁, small₂, small₃) in
    (payload_same, small, opened, closed)
