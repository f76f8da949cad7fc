-- ===== src/Session/Auth/Binding.antt =====
-- The signed payload determines what it is about.
use linkable.Prelude.{
  ℕ, suc, ◌-◌, ◌<◌, ◌^◌, ◌≡◌, sym, ap, ◌∙◌, ◌++◌, Bytes, length, ltb, arith, append_cancel,
  append_assoc, Bool-cases, inl, inr, ltb→lt,
}
use linkable.Prelude.Int.{ℤ, pos, negsuc}
use linkable.Prelude.Encoding.{to_bytes, utf8, length-to_bytes, to_bytes_injective}
use linkable.Prelude.Exec.{ok, Exec, ◌>>=◌, ok_injective}
use linkable.Session.Auth.{
  PeerDescriptor, append_field, append_u64, append_i64, build_session_signature_payload,
}

abbrev field : Bytes → Bytes
field v = to_bytes 4 (length v) ++ v

-- A step that appends these bytes, if it returns.
append_field-eq-ok :
    (v buffer : Bytes) (k : Unit {0} → Exec Bytes Bytes) (x : Bytes)
    → ((append_field v >>= k) buffer).0 ≡ ok x
    → (length v < 2 ^ 32) × ((k tt (buffer ++ field v)).0 ≡ ok x)
unfolding append_field
append_field-eq-ok v buffer k x h = elim (Bool-cases (ltb (length v) (2 ^ 32))) [
  | inl small ↦ (ltb→lt _ _ small, rw (← append_assoc) (rw (small, append_field) at h))
  | inr large ↦ absurd (cc (rw (large, append_field) at h))
]

append_u64-eq-ok :
    (n : ℕ) (buffer : Bytes) (k : Unit {0} → Exec Bytes Bytes) (x : Bytes)
    → ((append_u64 n >>= k) buffer).0 ≡ ok x
    → (n < 2 ^ 64) × ((k tt (buffer ++ to_bytes 8 n)).0 ≡ ok x)
unfolding append_u64
append_u64-eq-ok n buffer k x h = elim (Bool-cases (ltb n (2 ^ 64))) [
  | inl small ↦ (ltb→lt _ _ small, rw (small, append_u64) at h)
  | inr large ↦ absurd (cc (rw (large, append_u64) at h))
]

-- The 64 bits of a number in two's complement.
abbrev word : ℤ → ℕ
word (pos n) = n
word (negsuc n) = 2 ^ 64 - suc n

abbrev InRange : ℤ → Type 0
InRange (pos n) = n < 2 ^ 63
InRange (negsuc n) = n < 2 ^ 63

append_i64-eq-ok :
    (n : ℤ) (buffer : Bytes) (k : Unit {0} → Exec Bytes Bytes) (x : Bytes)
    → ((append_i64 n >>= k) buffer).0 ≡ ok x
    → InRange n × ((k tt (buffer ++ to_bytes 8 (word n))).0 ≡ ok x)
unfolding append_i64
append_i64-eq-ok (pos n) buffer k x h = elim (Bool-cases (ltb n (2 ^ 63))) [
  | inl small ↦ (ltb→lt _ _ small, rw (small, append_i64) at h)
  | inr large ↦ absurd (cc (rw (large, append_i64) at h))
]
append_i64-eq-ok (negsuc n) buffer k x h = elim (Bool-cases (ltb n (2 ^ 63))) [
  | inl small ↦ (ltb→lt _ _ small, rw (small, append_i64) at h)
  | inr large ↦ absurd (cc (rw (large, append_i64) at h))
]

word_injective :
    (m n : ℤ) → InRange m → InRange n → to_bytes 8 (word m) ≡ to_bytes 8 (word n) → m ≡ n
word_injective m n hm hn e =
    same_word m n hm hn
      (to_bytes_injective 8 (word m) (word n) (word_bound m hm) (word_bound n hn) e)
  where
    word_bound : (k : ℤ) → InRange k → word k < 2 ^ 64
    word_bound (pos k) h = omega arith
    word_bound (negsuc k) h = omega arith

    same_word : (a b : ℤ) → InRange a → InRange b → word a ≡ word b → a ≡ b
    same_word (pos a) (pos b) ha hb h = ap pos h
    same_word (pos a) (negsuc b) ha hb h = absurd (omega arith)
    same_word (negsuc a) (pos b) ha hb h = absurd (omega arith)
    same_word (negsuc a) (negsuc b) ha hb h = ap negsuc (omega arith)

field_cancel :
    (v w r s : Bytes)
    → length v < 2 ^ 32
    → length w < 2 ^ 32
    → field v ++ r ≡ field w ++ s
    → (v ≡ w) × (r ≡ s)
field_cancel v w r s hv hw e =
    let parts : to_bytes 4 (length v) ++ (v ++ r) ≡ to_bytes 4 (length w) ++ (w ++ s) =
      sym (append_assoc (to_bytes 4 (length v)) v r)
      ∙ e
      ∙ append_assoc (to_bytes 4 (length w)) w s in
    let (sizes, rest) =
      append_cancel (to_bytes 4 (length v)) (v ++ r) (to_bytes 4 (length w)) (w ++ s)
        (omega (arith, length-to_bytes 4 (length v), length-to_bytes 4 (length w))) parts in
    append_cancel v r w s (to_bytes_injective 4 (length v) (length w) hv hw sizes) rest

word_cancel :
    (k m n : ℕ) (r s : Bytes)
    → to_bytes k m ++ r ≡ to_bytes k n ++ s
    → (to_bytes k m ≡ to_bytes k n) × (r ≡ s)
word_cancel k m n r s e =
    append_cancel (to_bytes k m) r (to_bytes k n) s
      (omega (arith, length-to_bytes k m, length-to_bytes k n)) e

-- What a payload that was built consists of.
record Built (label : Bytes) (d : PeerDescriptor) (key : Bytes) (at : ℤ) (x : Bytes) : Type 0 where
  label_small : length label < 2 ^ 32
  fingerprint_small : length (utf8 d.fingerprint) < 2 ^ 32
  name_small : length (utf8 d.device_name) < 2 ^ 32
  platform_small : length (utf8 d.platform) < 2 ^ 32
  identity_small : length d.identity_public_key < 2 ^ 32
  key_small : length key < 2 ^ 32
  major_small : d.protocol_version.major < 2 ^ 64
  minor_small : d.protocol_version.minor < 2 ^ 64
  patch_small : d.protocol_version.patch < 2 ^ 64
  at_range : InRange at
  bytes :
      field label
        ++ (field (utf8 d.fingerprint)
            ++ (field (utf8 d.device_name)
                ++ (field (utf8 d.platform)
                    ++ (field d.identity_public_key
                        ++ (field key
                            ++ (to_bytes 8 d.protocol_version.major
                                ++ (to_bytes 8 d.protocol_version.minor
                                    ++ (to_bytes 8 d.protocol_version.patch
                                        ++ to_bytes 8 (word at)))))))))
      ≡ x

payload-Built :
    (label : Bytes) (d : PeerDescriptor) (key : Bytes) (at : ℤ) (x : Bytes)
    → build_session_signature_payload label d key at ≡ ok x
    → Built label d key at x
unfolding build_session_signature_payload
payload-Built label d key at x h₀ =
    let (b₁, h₁) = append_field-eq-ok label _ _ x h₀ in
    let (b₂, h₂) = append_field-eq-ok (utf8 d.fingerprint) _ _ x h₁ in
    let (b₃, h₃) = append_field-eq-ok (utf8 d.device_name) _ _ x h₂ in
    let (b₄, h₄) = append_field-eq-ok (utf8 d.platform) _ _ x h₃ in
    let (b₅, h₅) = append_field-eq-ok d.identity_public_key _ _ x h₄ in
    let (b₆, h₆) = append_field-eq-ok key _ _ x h₅ in
    let (b₇, h₇) = append_u64-eq-ok d.protocol_version.major _ _ x h₆ in
    let (b₈, h₈) = append_u64-eq-ok d.protocol_version.minor _ _ x h₇ in
    let (b₉, h₉) = append_u64-eq-ok d.protocol_version.patch _ _ x h₈ in
    let (b₀, h) = append_i64-eq-ok at _ _ x h₉ in
    record {
      label_small = b₁;
      fingerprint_small = b₂;
      name_small = b₃;
      platform_small = b₄;
      identity_small = b₅;
      key_small = b₆;
      major_small = b₇;
      minor_small = b₈;
      patch_small = b₉;
      at_range = b₀;
      bytes = simp append_assoc (simp append_assoc at (ok_injective h));
    }

-- If the payloads of two proofs were built and are equal, then so are their labels, the encodings
-- of their fingerprints, names and platforms, their identity keys, session keys, protocol versions
-- and times.
pub payload_injective :
    (label label' : Bytes) (d d' : PeerDescriptor) (key key' : Bytes) (at at' : ℤ) (x : Bytes)
    → build_session_signature_payload label d key at ≡ ok x
    → build_session_signature_payload label' d' key' at' ≡ ok x
    → (label ≡ label')
      × (utf8 d.fingerprint ≡ utf8 d'.fingerprint)
      × (utf8 d.device_name ≡ utf8 d'.device_name)
      × (utf8 d.platform ≡ utf8 d'.platform)
      × (d.identity_public_key ≡ d'.identity_public_key)
      × (key ≡ key')
      × (d.protocol_version ≡ d'.protocol_version)
      × (at ≡ at')
payload_injective label label' d d' key key' at at' x h h' =
    let a = payload-Built label d key at x h in
    let b = payload-Built label' d' key' at' x h' in
    let (e₁, r₁) =
      field_cancel label label' _ _ a.label_small b.label_small (a.bytes ∙ sym b.bytes) in
    let (e₂, r₂) =
      field_cancel (utf8 d.fingerprint) (utf8 d'.fingerprint) _ _ a.fingerprint_small
        b.fingerprint_small r₁ in
    let (e₃, r₃) =
      field_cancel (utf8 d.device_name) (utf8 d'.device_name) _ _ a.name_small b.name_small r₂ in
    let (e₄, r₄) =
      field_cancel (utf8 d.platform) (utf8 d'.platform) _ _ a.platform_small b.platform_small r₃ in
    let (e₅, r₅) =
      field_cancel d.identity_public_key d'.identity_public_key _ _ a.identity_small
        b.identity_small r₄ in
    let (e₆, r₆) = field_cancel key key' _ _ a.key_small b.key_small r₅ in
    let (e₇, r₇) = word_cancel 8 d.protocol_version.major d'.protocol_version.major _ _ r₆ in
    let (e₈, r₈) = word_cancel 8 d.protocol_version.minor d'.protocol_version.minor _ _ r₇ in
    let (e₉, r₉) = word_cancel 8 d.protocol_version.patch d'.protocol_version.patch _ _ r₈ in
    let major = to_bytes_injective 8 _ _ a.major_small b.major_small e₇ in
    let minor = to_bytes_injective 8 _ _ a.minor_small b.minor_small e₈ in
    let patch = to_bytes_injective 8 _ _ a.patch_small b.patch_small e₉ in
    (
      e₁,
      e₂,
      e₃,
      e₄,
      e₅,
      e₆,
      (λ i. record { major = major i; minor = minor i; patch = patch i }),
      word_injective at at' a.at_range b.at_range r₉,
    )
