-- ===== src/Store/Certificates/Renewals.antt =====
-- internal/coordinator/certificates.go: a renewal repeated gives the certificate of the first.
use dshker_server.Prelude.{
  Option-cases, [], ap, arith, bind_ok, find, find-append_none, identity_mismatch, inl, inr, not,
  ok, ok_inj, refl, reject_ok, some, str_refl, sym, true, ℕ, ◌&&◌, ◌∙◌, ◌∷◌, ◌≡◌,
}
use dshker_server.Protocol.Ids.{Bytes, second, valid_id}
use dshker_server.Protocol.Service.{Service}
use dshker_server.Store.Certificates.{
  Certificate, Renewal, authenticate, csr_matches, is_renewal, renew_certificate,
  replace_certificate,
}
use dshker_server.Store.Pairing.{Device}
use dshker_server.Store.Schema.{Db, RenewalRow}

module _ (service : Service) where
  -- What a renewal that succeeded has found: the device, and either a saved certificate, with the
  -- tables as they were, or none, with the new certificate saved.
  renew_ok :
      (certificate : Certificate) (request : Renewal) (now : ℕ) (db db' : Db) (c : Bytes)
      → renew_certificate service certificate request now db ≡ ok (c, db')
      → (dev : Device) × (authenticate db (some certificate) ≡ ok dev)
        × (csr_matches (service.csr_key request.csr) dev.public_key ≡ true)
        × (valid_id request.request_id ≡ true)
        × (saved : RenewalRow) × (find (is_renewal dev.id request.request_id) db'.renewals
            ≡ some saved)
        × (saved.certificate ≡ c)
  unfolding renew_certificate replace_certificate
  renew_ok certificate request now db db' c h =
      let (dev, e, h₁) = bind_ok (authenticate db (some certificate)) _ h in
      let (fits, h₂) =
        reject_ok
          (not (
            csr_matches (service.csr_key request.csr) dev.public_key
            && valid_id request.request_id))
          identity_mismatch _ h₁ in
      elim (Option-cases (find (is_renewal dev.id request.request_id) db.renewals)) [
        | inr (saved, f) ↦ (dev, e, ground arith, ground arith, saved, ground arith, ground arith)
        | inl f ↦
            let row : RenewalRow = record {
              device_id = dev.id;
              request_id = request.request_id;
              certificate = service.issue_certificate dev.id dev.public_key now;
            } in
            (
              dev,
              e,
              ground arith,
              ground arith,
              row,
              ground (
                arith,
                find-append_none (is_renewal dev.id request.request_id) db.renewals (row ∷ []) f,
                str_refl dev.id,
                str_refl request.request_id,
              ),
              ground arith,
            )
      ]

  -- A renewal is idempotent: repeated with its request in the tables that it leaves, by the same
  -- device under whatever certificate, at any time, it gives the same certificate and writes
  -- nothing.
  pub renew_certificate-again :
      (certificate other : Certificate) (request : Renewal) (now later : ℕ) (db db' : Db)
      (c : Bytes) (first second : Device)
      → renew_certificate service certificate request now db ≡ ok (c, db')
      → authenticate db (some certificate) ≡ ok first
      → authenticate db' (some other) ≡ ok second
      → second.id ≡ first.id
      → second.public_key ≡ first.public_key
      → renew_certificate service other request later db' ≡ ok (c, db')
  unfolding renew_certificate
  renew_certificate-again certificate other request now later db db' c first second h e f same key =
      let (dev, e', fits, valid, saved, there, is) = renew_ok certificate request now db db' c h in
      let dev_is : first ≡ dev = ok_inj (sym e ∙ e') in
      let id_is : second.id ≡ dev.id = same ∙ ap (λ d. d.id) dev_is in
      let key_is : second.public_key ≡ dev.public_key = key ∙ ap (λ d. d.public_key) dev_is in
      let fits' : csr_matches (service.csr_key request.csr) second.public_key ≡ true =
        rw key_is fits in
      let there' : find (is_renewal second.id request.request_id) db'.renewals ≡ some saved =
        rw id_is there in
      rw (f, fits', valid, there', is) refl
