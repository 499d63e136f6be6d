-- ===== src/Core/Sealing.antt =====
-- `seal` then `open` of crates/zbacs-core/src/container.rs: the whole container.
use z_bacs.Prelude.{
  ℕ, suc, ◌≤◌, ◌<◌, ◌≡◌, refl, ap, List, [], ◌∷◌, Bool, false, Option, some, none, ok, >>=-ok,
  ok_or, ok_or-ok, arith, ltb, ◌==◌, length, any, ◌||◌,
}
use z_bacs.Prelude.Bytes.{Bytes}
use z_bacs.Core.External.{Suite, Aead, Hpke}
use z_bacs.Core.Header.{
  Envelope, Header, HeaderBody, Forms, sign_header, wrap, dek_info, envelope_seal,
}
use z_bacs.Core.Padding.{length-pad_name}
use z_bacs.Core.Container.{
  PrevVersion, SealOptions, Draws, encrypt_name, wrap_all, identity, successor, make_header,
  validate_header, max_chunk, max_owner_len, max_envelopes, max_envelope_field_len, mismatch,
  cipher_xchacha20_poly1305_chunked,
}
use z_bacs.Core.RoundTrip.{encrypt_name-sealed, make_header-Made}
use z_bacs.Core.Reading.{Written}

-- What the header limits ask of the options: `seal` does not check it.
pub record Sensible (opts : SealOptions) : Type 0 where
  pub owner : (0 < length opts.owner_account) × (length opts.owner_account ≤ max_owner_len)
  pub recipients : suc (length opts.extra_recipients) ≤ max_envelopes
  pub later : (p : PrevVersion) → opts.prev ≡ some p → 0 < p.version

pub record Shaped (c : Suite) (f : Forms) (input owner_pk sk : Bytes) (opts : SealOptions)
    (draws : Draws) (h : Header) : Type 0 where
  pub cipher : h.body.cipher ≡ cipher_xchacha20_poly1305_chunked
  pub own : h.body.own ≡ opts.owner_account
  pub next : successor opts.prev ≡ ok (h.body.prev, h.body.ver)
  pub env : wrap_all c draws.dek h.body.fid (owner_pk ∷ opts.extra_recipients) ≡ ok h.body.env
  pub body : HeaderBody
  pub signed : sign_header c f body sk ≡ ok h

pub make_header-Shaped :
    (c : Suite) (f : Forms) (input owner_pk sk : Bytes) (opts : SealOptions) (draws : Draws)
    {h : Header}
    → make_header c f input owner_pk sk opts draws ≡ ok h
    → Shaped c f input owner_pk sk opts draws h
unfolding make_header
make_header-Shaped c f input owner_pk sk opts draws {h = h} e =
    let (name, n, e₁) = >>=-ok (encrypt_name c draws.dek draws.np opts.file_name) _ e in
    let (env, w, e₂) =
      >>=-ok
        (wrap_all c draws.dek (identity c opts.prev input draws.salt).0
          (owner_pk ∷ opts.extra_recipients))
        _ e₁ in
    let ((prev, ver), v, e₃) = >>=-ok (successor opts.prev) _ e₂ in
    record {
      cipher = unfold sign_header in ground (arith, e₃);
      own = unfold sign_header in ground (arith, e₃);
      next = unfold sign_header in ground (arith, e₃, v);
      env = unfold sign_header in ground (arith, e₃, w);
      body = _;
      signed = e₃;
    }

abbrev over : Envelope → Bool
over = λ e. ltb max_envelope_field_len (length e.enc) || ltb max_envelope_field_len (length e.ct)

length-wrap :
    (c : Suite) (pk dek fid : Bytes) {e : Envelope}
    → Hpke c
    → length dek ≡ 32
    → wrap c pk dek fid ≡ ok e
    → (length e.enc ≡ 32) × (length e.ct ≡ 48)
unfolding wrap
length-wrap c pk dek fid h l w =
    let ((enc, ct), s, k) = >>=-ok (ok_or (c.hpke_seal pk dek_info fid dek) envelope_seal) _ w in
    let sealed = ok_or-ok _ envelope_seal s in
    let le = h.length-enc _ _ _ _ sealed in
    let lc = h.length-ct _ _ _ _ sealed in (ground (arith, k, le), ground (arith, k, lc, l))

length-wrap_all :
    (c : Suite) (dek fid : Bytes) (pks : List Bytes) {es : List Envelope}
    → Hpke c
    → length dek ≡ 32
    → wrap_all c dek fid pks ≡ ok es
    → (length es ≡ length pks) × (any over es ≡ false)
unfolding wrap_all
length-wrap_all c dek fid [] h l w = (ground arith, ground arith)
length-wrap_all c dek fid (pk ∷ pks) h l w =
    let (e, we, w₁) = >>=-ok (wrap c pk dek fid) _ w in
    let (es, wes, w₂) = >>=-ok (wrap_all c dek fid pks) _ w₁ in
    let one = length-wrap c pk dek fid h l we in
    let all = length-wrap_all c dek fid pks h l wes in
    (ground (arith, w₂, all), ground (arith, w₂, all, one))

name_bounds :
    (c : Suite) (dek np name : Bytes) {ct : Bytes}
    → Aead c
    → encrypt_name c dek np name ≡ ok ct
    → (80 ≤ length ct) × (length ct ≤ 1104)
name_bounds c dek np name a e =
    let (padded, p, s) = encrypt_name-sealed c dek np name e in
    let bounds = length-pad_name name p in
    let l = a.length-encrypt _ _ _ _ s in (omega arith, omega arith)

successor-valid :
    (prev : Option PrevVersion) (p : Option Bytes) (v : ℕ)
    → ((q : PrevVersion) → prev ≡ some q → 0 < q.version)
    → successor prev ≡ ok (p, v)
    → ((v == 0) ≡ false) × (mismatch (v == 1) p ≡ false)
unfolding successor
successor-valid none p v later e = (ground arith, ground arith)
successor-valid (some q) p v later e =
    let old = later q refl in (ground (arith, old), ground (arith, old))

validated :
    (h : Header)
    → h.body.cipher ≡ cipher_xchacha20_poly1305_chunked
    → 0 < h.body.chunk
    → h.body.chunk ≤ max_chunk
    → (h.body.ver == 0) ≡ false
    → mismatch (h.body.ver == 1) h.body.prev ≡ false
    → 0 < length h.body.own
    → length h.body.own ≤ max_owner_len
    → 80 ≤ length h.body.name
    → length h.body.name ≤ 1104
    → 0 < length h.body.env
    → length h.body.env ≤ max_envelopes
    → any over h.body.env ≡ false
    → validate_header h ≡ ok tt
unfolding validate_header
validated h ci c₀ c₁ v m o₀ o₁ n₀ n₁ e₀ e₁ a =
    let chunk : (h.body.chunk == 0 || ltb max_chunk h.body.chunk) ≡ false = ground arith in
    let own : (length h.body.own == 0 || ltb max_owner_len (length h.body.own)) ≡ false =
      ground arith in
    let name : (ltb 1104 (length h.body.name) || ltb (length h.body.name) 80) ≡ false =
      ground arith in
    let env : (length h.body.env == 0 || ltb max_envelopes (length h.body.env)) ≡ false =
      ground arith in
    rw (ci, chunk, v, m, own, name, env, a) refl

pub sealed-valid :
    (c : Suite) (f : Forms) (input owner_pk sk : Bytes) (opts : SealOptions) (draws : Draws)
    (h : Header) (out : Bytes)
    → Aead c
    → Hpke c
    → Sensible opts
    → length draws.dek ≡ 32
    → Written c f input owner_pk sk opts draws h out
    → validate_header h ≡ ok tt
sealed-valid c f input owner_pk sk opts draws h out a hp good l w =
    let m = make_header-Made c f input owner_pk sk opts draws w.made in
    let s = make_header-Shaped c f input owner_pk sk opts draws w.made in
    let (n₀, n₁) = name_bounds c draws.dek draws.np opts.file_name a m.name in
    let (v, mm) = successor-valid opts.prev h.body.prev h.body.ver good.later s.next in
    let (count, small) =
      length-wrap_all c draws.dek h.body.fid (owner_pk ∷ opts.extra_recipients) hp l s.env in
    let own = ap length s.own in
    let owner = good.owner in
    let recipients = good.recipients in
    let c₀ = w.chunked in
    let c₁ = w.bounded in
    let ch = m.chunk in
    validated h s.cipher (omega (arith, ch)) (omega (arith, ch)) v mm (omega arith) (omega arith) n₀
      n₁ (omega arith) (omega arith) small
