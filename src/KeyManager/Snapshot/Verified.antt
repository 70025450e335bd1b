-- ===== src/KeyManager/Snapshot/Verified.antt =====
-- What a verified key shows: the TPM holds the recorded object.
use sovereignite.Base.{
  Bytes, same_refl, same-eq, none, ==_iff, passes, first_error, first_error-none, ◌≡◌, ◌↔◌, refl,
}
use sovereignite.Base.Effect.{Outcome, done, failed}
use sovereignite.KeyManager.Error.{Error}
use sovereignite.KeyManager.Policy.{Role}
use sovereignite.KeyManager.Tpm.{Public, canonical_public_key}
use sovereignite.KeyManager.Tpm.Laws.{same_template-eq, same_template_refl}
use sovereignite.KeyManager.Snapshot.{
  KeyMetadata, der_differs, public_checks, verify_public_metadata,
}

-- The public area of a recorded key.
pub record Matches (m : KeyMetadata) (p : Public) : Type 0 where
  pub handle : p.handle ≡ m.handle
  pub template : p.template ≡ m.template
  pub name : p.name ≡ m.public_name
  pub key : canonical_public_key p ≡ done m.public_key_der

der_differs-none :
    (r : Role) (o : Outcome Error Bytes) (der : Bytes) → der_differs r o der ≡ none → o ≡ done der
der_differs-none r (failed e) der h = cc
der_differs-none r (done found) der h = rw (same-eq found der (passes _ _ h)) refl

der_differs_refl : (r : Role) (der : Bytes) → der_differs r (done der) der ≡ none
der_differs_refl r der = rw (same_refl der) refl

-- A key is verified exactly when the TPM's object has the recorded handle, template and name, and a valid public key
-- of its algorithm whose encoding is the recorded one.
pub verify_public_metadata_iff :
    (m : KeyMetadata) (p : Public) → (verify_public_metadata m p ≡ none) ↔ Matches m p
unfolding verify_public_metadata first_error
verify_public_metadata_iff m p = (forth, back)
  where
    forth : first_error (public_checks m p) ≡ none → Matches m p
    forth h =
        let c = first_error-none (public_checks m p) h in
        record {
          handle = (==_iff p.handle m.handle).0 (passes _ _ c.0);
          template = same_template-eq p.template m.template (passes _ _ c.1.0);
          name = same-eq p.name m.public_name (passes _ _ c.1.1.0);
          key = der_differs-none m.role (canonical_public_key p) m.public_key_der c.1.1.1.0;
        }

    back : Matches m p → first_error (public_checks m p) ≡ none
    back h =
        rw
          (
            h.key,
            (==_iff p.handle m.handle).1 h.handle,
            h.template,
            same_template_refl m.template,
            h.name,
            same_refl m.public_name,
            same_refl m.public_key_der,
          )
          refl
