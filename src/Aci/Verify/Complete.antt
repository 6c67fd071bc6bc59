-- ===== src/Aci/Verify/Complete.antt =====
-- The default values of a protected header never pass the checks of the UVM endorsements.
use ravl.Prelude.{
  ℕ, zero, suc, ◌<◌, String, ◌≡◌, refl, ◌∙◌, sym, ap, arith, inl, inr, Bool, true, not, ◌&&◌, List,
  [], ◌∷◌, Option, none, some, Bytes, codes, bytes_eq, bytes_eq→eq, Bool-cases, length, get_elem?,
  ◌==◌,
}
use ravl.Result.{ok, throw_if, bind_returned, throw_if_passed, ok-injective}
use ravl.Crypto.{OpenSsl}
use ravl.Json.{JsonLibrary}
use ravl.Aci.Cose.{
  ℤ, pos, Qcbor, HeaderItems, ProtectedHeader, value_or, decoded, optional_x5chain, is_rsa_alg,
  decode_protected_header,
}
use ravl.Aci.Roots.{
  UvmEndorsements, bytes_leb, uvm_roots_of_trust, matches_any, matches_uvm_roots_of_trust,
}
use ravl.Aci.Endorsements.{UvmLibrary, verify_uvm_endorsements}
use ravl.Aci.Verify.Sound.{verify_uvm_endorsements-IsRooted}

and_true : (a b c : Bool) → (a && b && c) ≡ true → (a ≡ true) × (b ≡ true)
and_true a b c h = ground (arith, h)

-- The root that matches, with the DID and the feed.
matches_any-get :
    (roots : List UvmEndorsements) (e : UvmEndorsements)
    → matches_any roots e ≡ true
    → (i : ℕ) × (root : UvmEndorsements) × (get_elem? roots i ≡ some root)
      × (root.did ≡ e.did)
      × (root.feed ≡ e.feed)
unfolding matches_any
matches_any-get [] e h = absurd cc
matches_any-get (root ∷ roots) e h =
    let test = bytes_eq root.did e.did && bytes_eq root.feed e.feed && bytes_leb root.svn e.svn in
    elim (Bool-cases test) [
      | inl t ↦
          let (d, f) =
            and_true (bytes_eq root.did e.did) (bytes_eq root.feed e.feed)
              (bytes_leb root.svn e.svn) t in
          (0, root, refl, bytes_eq→eq root.did e.did d, bytes_eq→eq root.feed e.feed f)
      | inr n ↦
          let (i, r, g, d, f) = matches_any-get roots e (ground (arith, n, h)) in
          (suc i, r, g, d, f)
    ]

-- A member that is not empty was in the header.
given : (o : Option Bytes) (v : Bytes) → value_or [] o ≡ v → 0 < length v → o ≡ some v
given none v h long = absurd (ground (arith, h, long))
given (some b) v h long = ap some h

rsa_given :
    (o : Option ℤ)
    → is_rsa_alg (value_or (pos 0) o) ≡ true
    → (a : ℤ) × (o ≡ some a) × (is_rsa_alg a ≡ true)
unfolding is_rsa_alg
rsa_given none h = absurd cc
rsa_given (some a) h = (a, refl, h)

decoded-some {ℓ} :
    {A : Type ℓ} (message : String) (o : Option A) (a : A) → decoded message o ≡ ok a → o ≡ some a
decoded-some message none a h = absurd cc
decoded-some message (some b) a h = ap some (ok-injective b a h)

same_names :
    (r root : UvmEndorsements)
    → some r ≡ some root
    → 0 < length r.did
    → 0 < length r.feed
    → (0 < length root.did) × (0 < length root.feed)
same_names r root e d f =
    let did : length r.did ≡ length root.did = ap (λ o. length (value_or root o).did) e in
    let feed : length r.feed ≡ length root.feed = ap (λ o. length (value_or root o).feed) e in
    (omega (arith, did, d), omega (arith, feed, f))

root_named :
    (i : ℕ) (root : UvmEndorsements)
    → get_elem? uvm_roots_of_trust i ≡ some root
    → (0 < length root.did) × (0 < length root.feed)
root_named zero root h = same_names _ root h (omega arith) (omega arith)
root_named (suc zero) root h = same_names _ root h (omega arith) (omega arith)
root_named (suc (suc i)) root h = absurd cc

module _ (qcbor : Qcbor) where
  -- The header of a tagged message, as QCBOR finds it.
  record IsDecoded (raw : Bytes) (phdr : ProtectedHeader) : Type 0 where
    pub ctx : qcbor.Context
    pub ctx₁ : qcbor.Context
    pub items : HeaderItems
    pub entered : qcbor.enter_array raw ≡ some ctx
    pub tagged : (qcbor.nth_tag_of_last ctx == 18) ≡ true
    pub found : qcbor.header_items ctx ≡ some (items, ctx₁)
    pub alg : value_or (pos 0) items.alg ≡ phdr.alg
    pub content_type : value_or [] items.content_type ≡ phdr.content_type
    pub iss : value_or [] items.iss ≡ phdr.iss
    pub feed : value_or [] items.feed ≡ phdr.feed

  decode_protected_header-IsDecoded :
      (raw : Bytes) (phdr : ProtectedHeader)
      → decode_protected_header qcbor raw ≡ ok phdr
      → IsDecoded raw phdr
  unfolding decode_protected_header
  decode_protected_header-IsDecoded raw phdr h =
      let (ctx, e₁, f₁) = bind_returned (decoded _ (qcbor.enter_array raw)) _ h in
      let (_, e₂, f₂) = bind_returned (throw_if _ _) _ e₁ in
      let ((items, ctx₁), e₃, f₃) = bind_returned (decoded _ (qcbor.header_items ctx)) _ e₂ in
      let ((x5_chain, ctx₂), e₄, f₄) =
        bind_returned (optional_x5chain qcbor ctx₁ items.x5_chain) _ e₃ in
      let (_, e₅, f₅) =
        bind_returned (throw_if (not (qcbor.exit_map ctx₂)) "Failed to decode protected header") _
          e₄ in
      let same = ok-injective _ phdr e₅ in
      record {
        ctx = ctx;
        ctx₁ = ctx₁;
        items = items;
        entered = decoded-some _ _ ctx f₁;
        tagged = throw_if_passed _ _ f₂;
        found = decoded-some _ _ (items, ctx₁) f₃;
        alg = ap (λ p. p.alg) same;
        content_type = ap (λ p. p.content_type) same;
        iss = ap (λ p. p.iss) same;
        feed = ap (λ p. p.feed) same;
      }

module _ (qcbor : Qcbor) (crypto : OpenSsl) (json : JsonLibrary)
    (uvm : UvmLibrary crypto json) where
  -- UVM endorsements that are accepted: the message has COSE's tag, and in its protected header
  -- are an RSA algorithm, JSON as the type of the content, and the DID and the feed of one of the
  -- two roots of trust. No default value of a header's member is accepted in their place.
  pub verify_uvm_endorsements_pinned :
      (raw measurement : Bytes) (end : UvmEndorsements)
      → verify_uvm_endorsements qcbor crypto json uvm raw measurement ≡ ok end
      → (ctx : qcbor.Context) × (ctx₁ : qcbor.Context) × (items : HeaderItems) × (alg : ℤ) × (i : ℕ)
        × (root : UvmEndorsements) × (qcbor.enter_array raw ≡ some ctx)
        × ((qcbor.nth_tag_of_last ctx == 18) ≡ true)
        × (qcbor.header_items ctx ≡ some (items, ctx₁))
        × (items.alg ≡ some alg)
        × (is_rsa_alg alg ≡ true)
        × (items.content_type ≡ some (codes "application/json"))
        × (get_elem? uvm_roots_of_trust i ≡ some root)
        × (items.iss ≡ some root.did)
        × (items.feed ≡ some root.feed)
  unfolding matches_uvm_roots_of_trust
  verify_uvm_endorsements_pinned raw measurement end h =
      let r = verify_uvm_endorsements-IsRooted qcbor crypto json uvm raw measurement end h in
      let d = decode_protected_header-IsDecoded qcbor raw r.phdr r.header in
      let (alg, has_alg, is_rsa) = rsa_given d.items.alg (ap (λ a. is_rsa_alg a) d.alg ∙ r.rsa) in
      let end' : UvmEndorsements = record {
        did = r.phdr.iss;
        feed = r.phdr.feed;
        svn = r.payload.sevsnpvm_guest_svn;
      } in
      let (i, root, known, did, feed) = matches_any-get uvm_roots_of_trust end' r.rooted in
      let (did_named, feed_named) = root_named i root known in
      (
        d.ctx,
        d.ctx₁,
        d.items,
        alg,
        i,
        root,
        d.entered,
        d.tagged,
        d.found,
        has_alg,
        is_rsa,
        given d.items.content_type (codes "application/json") (d.content_type ∙ r.content_type)
            (omega arith),
        known,
        given d.items.iss root.did (d.iss ∙ sym did) did_named,
        given d.items.feed root.feed (d.feed ∙ sym feed) feed_named,
      )
