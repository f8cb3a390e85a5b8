-- ===== src/License/Genuine.antt =====
-- What makes a license genuine, and that the flag is set by a genuine license alone.
use holonomy_source.Common.{
  ℕ, ◌≤◌, ◌≡◌, refl, ◌↔◌, ◌⊎◌, inl, inr, Option-cases, String, Bool, true, Option, none, some, List,
  arith, length, ◌≢◌, ◌∙◌, ap, is_empty, Bool-cases,
}
use holonomy_source.Common.Result.{
  Result-cases, ok, ok_or, map_err, >>=-eq-ok, ok_or-eq-ok, map_err-eq-ok,
}
use holonomy_source.Config.Resolved.{ResolvedConfiguration}
use holonomy_source.License.{
  set_text, fetch_license, s3_fetch_failed, invalid_utf8, LicenseEnvelope, parse_error,
  hardcoded_key_invalid, invalid_key_length, invalid_signature_format, holonomy_root_public_key_hex,
  Services, verify_manifest, root_key, check_date, check_expiration, verify_content, verify_and_set,
  license_text, resolve_and_verify_license,
}

is_empty_iff : (text : String) → (is_empty text ≡ true) ↔ (text ≡ "")
is_empty_iff String.[] = (λ h. refl, λ h. refl)
is_empty_iff (String.◌∷◌ c rest) = ((λ h. cc), λ h. ap is_empty h)

module _ (s : Services) where
  open s use {
    Value, envelope_from_str, value_from_str, get_str, hex_decode, key_from_bytes,
    signature_from_slice, verify, date_from_str, get_object, from_utf8,
  }

  -- The payload names no date of expiry, or one that is not past.
  pub Lasts : ℕ → Value → Type 0
  Lasts today value =
      (get_str "expires_at" value ≡ none)
      ⊎ ((text : String) × (date : ℕ) × (get_str "expires_at" value ≡ some text)
          × (date_from_str text ≡ ok date)
          × (today ≤ date))

  -- The signature, in hexadecimal digits, is one of the payload under the root key.
  pub record IsSigned (envelope : LicenseEnvelope) : Type 0 where
    pub key_bytes : List ℕ
    pub key : s.Key
    pub sig_bytes : List ℕ
    pub signature : s.Signature
    pub key_decoded : hex_decode holonomy_root_public_key_hex ≡ some key_bytes
    pub key_length : length key_bytes ≡ 32
    pub key_read : key_from_bytes key_bytes ≡ some key
    pub decoded : hex_decode envelope.signature ≡ some sig_bytes
    pub read : signature_from_slice sig_bytes ≡ some signature
    pub verified : verify key envelope.payload signature ≡ true

  -- The text is an envelope that bears a signature of the root key, of a payload that still lasts.
  pub record IsGenuine (today : ℕ) (content : String) : Type 0 where
    pub envelope : LicenseEnvelope
    pub value : Value
    pub parsed : envelope_from_str content ≡ ok envelope
    pub signed : IsSigned envelope
    pub payload_read : value_from_str envelope.payload ≡ ok value
    pub lasts : Lasts today value

  check_expiration-Lasts :
      (today : ℕ) (value : Value) → check_expiration s today value ≡ ok tt → Lasts today value
  unfolding check_expiration check_date Lasts
  check_expiration-Lasts today value h = elim (Option-cases (get_str "expires_at" value)) [
    | inl e ↦ inl e
    | inr (text, e) ↦
        let named : check_date s today text ≡ ok tt = ground (arith, e, h) in
        let (date, d, in_time) = >>=-eq-ok (map_err _ (date_from_str text)) _ named in
        inr (text, date, e, map_err-eq-ok _ (date_from_str text) d, ground (arith, in_time))
  ]

  check_expiration_complete :
      (today : ℕ) (value : Value) → Lasts today value → check_expiration s today value ≡ ok tt
  unfolding check_expiration check_date Lasts
  check_expiration_complete today value (inl e) = ground (arith, e)
  check_expiration_complete today value (inr (text, date, e, d, in_time)) =
      ground (arith, e, d, in_time)

  verify-IsSigned :
      (envelope : LicenseEnvelope) {key_bytes : List ℕ}
      → root_key s ≡ ok key_bytes
      → verify_manifest s envelope.payload envelope.signature key_bytes ≡ ok tt
      → IsSigned envelope
  unfolding root_key verify_manifest
  verify-IsSigned envelope {key_bytes} k h =
      let (bytes, d, k1) =
        >>=-eq-ok (ok_or (hex_decode holonomy_root_public_key_hex) hardcoded_key_invalid) _ k in
      let (key, r, h1) =
        >>=-eq-ok (ok_or (key_from_bytes key_bytes) (invalid_key_length (length key_bytes))) _ h in
      let (raw, d2, h2) =
        >>=-eq-ok (ok_or (hex_decode envelope.signature) invalid_signature_format) _ h1 in
      let (sig, r2, h3) =
        >>=-eq-ok (ok_or (signature_from_slice raw) invalid_signature_format) _ h2 in
      record {
        key_bytes = key_bytes;
        key = key;
        sig_bytes = raw;
        signature = sig;
        key_decoded = ground (
          arith,
          d,
          k1,
          ok_or-eq-ok (hex_decode holonomy_root_public_key_hex) hardcoded_key_invalid d,
        );
        key_length = ground (arith, k1);
        key_read = ok_or-eq-ok (key_from_bytes key_bytes) _ r;
        decoded = ok_or-eq-ok (hex_decode envelope.signature) invalid_signature_format d2;
        read = ok_or-eq-ok (signature_from_slice raw) invalid_signature_format r2;
        verified = ground arith;
      }

  verify_content-IsGenuine :
      (today : ℕ) (content : String)
      → verify_content s today content ≡ ok tt
      → IsGenuine today content
  unfolding verify_content
  verify_content-IsGenuine today content h =
      let (envelope, e, h1) = >>=-eq-ok (map_err parse_error (envelope_from_str content)) _ h in
      let (key, k, h2) = >>=-eq-ok (root_key s) _ h1 in
      let (u, v, h3) =
        >>=-eq-ok (map_err _ (verify_manifest s envelope.payload envelope.signature key)) _ h2 in
      let (value, p, h4) = >>=-eq-ok (map_err _ (value_from_str envelope.payload)) _ h3 in
      record {
        envelope = envelope;
        value = value;
        parsed = map_err-eq-ok parse_error (envelope_from_str content) e;
        signed =
            verify-IsSigned envelope k
              (map_err-eq-ok _ (verify_manifest s envelope.payload envelope.signature key) v);
        payload_read = map_err-eq-ok _ (value_from_str envelope.payload) p;
        lasts = check_expiration-Lasts today value h4;
      }

  root_key_complete :
      (envelope : LicenseEnvelope) (signed : IsSigned envelope) → root_key s ≡ ok signed.key_bytes
  unfolding root_key
  root_key_complete envelope signed = ground (arith, signed.key_decoded, signed.key_length)

  verify_manifest_complete :
      (envelope : LicenseEnvelope) (signed : IsSigned envelope)
      → verify_manifest s envelope.payload envelope.signature signed.key_bytes ≡ ok tt
  unfolding verify_manifest
  verify_manifest_complete envelope signed =
      ground (arith, signed.key_read, signed.decoded, signed.read, signed.verified)

  verify_content_complete :
      (today : ℕ) (content : String)
      → IsGenuine today content
      → verify_content s today content ≡ ok tt
  unfolding verify_content
  verify_content_complete today content g = ground (
    arith,
    g.parsed,
    root_key_complete g.envelope g.signed,
    verify_manifest_complete g.envelope g.signed,
    g.payload_read,
    check_expiration_complete today g.value g.lasts,
  )

  -- A setting of the client: given, unless it is empty.
  pub Given : String → Option String → Type 0
  Given text o = ((text ≡ "") × (o ≡ none)) ⊎ ((text ≢ "") × (o ≡ some text))

  -- The configuration gives the text: it is the key, or else, where there is no key and a bucket is
  -- set, the object `holonomy.lic` of the bucket, read with the endpoint and the region that are set.
  pub IsLicenseText : ResolvedConfiguration → String → Type 0
  IsLicenseText config content =
      (config.license.key ≡ some content)
      ⊎ ((endpoint : Option String) × (region : Option String) × (body : List ℕ)
          × (config.license.key ≡ none)
          × (config.policy.central_bucket ≢ "")
          × Given config.storage.endpoint endpoint
          × Given config.storage.region region
          × (s.get_object endpoint region config.policy.central_bucket "holonomy.lic" ≡ ok body)
          × (s.from_utf8 body ≡ ok content))

  Given-set_text : (text : String) → Given text (set_text text)
  unfolding Given
  Given-set_text text = elim (Bool-cases (is_empty text)) [
    | inl e ↦ inl ((is_empty_iff text).0 e, ground (arith, e))
    | inr e ↦ inr ((λ h. ground (arith, e, is_empty_iff text, h)), ground (arith, e))
  ]

  Given-unique : (text : String) (o : Option String) → Given text o → o ≡ set_text text
  unfolding Given
  Given-unique text o (inl (e, n)) = ground (arith, is_empty_iff text, e, n)
  Given-unique text o (inr (e, n)) = elim (Bool-cases (is_empty text)) [
    | inl b ↦ absurd (e ((is_empty_iff text).0 b))
    | inr b ↦ ground (arith, b, n)
  ]

  license_text_iff :
      (config : ResolvedConfiguration) (content : String)
      → (license_text s config ≡ ok content) ↔ IsLicenseText config content
  unfolding license_text fetch_license IsLicenseText
  license_text_iff config content = elim (Option-cases config.license.key) [
    | inr (key, k) ↦ (
      λ h. let e : key ≡ content = ground (arith, k, h) in inl (k ∙ ap some e),
      λ cause. elim cause [
        | inl e ↦ ground (arith, e)
        | inr (endpoint, region, body, n, b, g, r, o, u) ↦ absurd (cc (k, n))
      ],
    )
    | inl k ↦ elim (Bool-cases (is_empty config.policy.central_bucket)) [
      | inl b ↦ (
        λ h. absurd (ground (arith, k, b, h)),
        λ cause. elim cause [
          | inl e ↦ absurd (cc (k, e))
          | inr (endpoint, region, body, n, filled, g, r, o, u) ↦
              absurd (filled ((is_empty_iff config.policy.central_bucket).0 b))
        ],
      )
      | inr b ↦ (
        λ h.
            let fetched : fetch_license s config ≡ ok content = ground (arith, k, b, h) in
            let (body, o, u) = >>=-eq-ok (map_err s3_fetch_failed (get_object _ _ _ _)) _ fetched in
            inr (
              set_text config.storage.endpoint,
              set_text config.storage.region,
              body,
              k,
              (λ e. ground (arith, b, is_empty_iff config.policy.central_bucket, e)),
              Given-set_text config.storage.endpoint,
              Given-set_text config.storage.region,
              map_err-eq-ok s3_fetch_failed _ o,
              map_err-eq-ok invalid_utf8 (from_utf8 body) u,
            ),
        λ cause. elim cause [
          | inl e ↦ absurd (cc (k, e))
          | inr (endpoint, region, body, n, filled, g, r, o, u) ↦
              let e = Given-unique config.storage.endpoint endpoint g in
              let f = Given-unique config.storage.region region r in
              let got : get_object (set_text config.storage.endpoint)
                    (set_text config.storage.region) config.policy.central_bucket "holonomy.lic"
                  ≡ ok body =
                rw (← e, ← f) o in
              ground (arith, k, b, got, u)
        ],
      )
    ]
  ]

  flag_iff :
      (today : ℕ) (config : ResolvedConfiguration) (valid : Bool)
      → ((resolve_and_verify_license s today config valid).0 ≡ true) ↔ (
          (valid ≡ true)
          ⊎ ((content : String) × (license_text s config ≡ ok content) × IsGenuine today content))
  unfolding resolve_and_verify_license verify_and_set
  flag_iff today config valid = (
    λ h. elim (Result-cases (license_text s config)) [
      | inr (error, e) ↦ inl (ground (arith, e, h))
      | inl (content, e) ↦ elim (Result-cases (verify_content s today content)) [
        | inl (u, v) ↦ inr (content, e, verify_content-IsGenuine today content v)
        | inr (error, v) ↦ inl (ground (arith, e, v, h))
      ]
    ],
    λ cause. elim cause [
      | inl already ↦ ground (arith, already)
      | inr (content, e, g) ↦ ground (arith, e, verify_content_complete today content g)
    ],
  )

  -- After the check of a license the flag is set exactly when it was set before, or when the
  -- license text of the configuration is genuine: an envelope whose payload bears a signature of
  -- the root key and has no text as its date of expiry, or one that can be read and is not past.
  -- The license text is the configured key, or else, where there is no key and a policy bucket is
  -- set, the object `holonomy.lic` of that bucket: an object is not looked at where there is a key,
  -- genuine or not.
  pub resolve_and_verify_license_iff :
      (today : ℕ) (config : ResolvedConfiguration) (valid : Bool)
      → ((resolve_and_verify_license s today config valid).0 ≡ true) ↔ (
          (valid ≡ true)
          ⊎ ((content : String) × IsLicenseText config content × IsGenuine today content))
  resolve_and_verify_license_iff today config valid =
      let flag = flag_iff today config valid in
      (
        λ h. elim (flag.0 h) [
          | inl already ↦ inl already
          | inr (content, t, g) ↦ inr (content, (license_text_iff config content).0 t, g)
        ],
        λ cause. flag.1 (elim cause [
          | inl already ↦ inl already
          | inr (content, t, g) ↦ inr (content, (license_text_iff config content).1 t, g)
        ]),
      )
