-- ===== src/Config/Valid.antt =====
-- internal/coordinator/config.go: what is known of a configuration that `Validate` accepts.
use Prim.Native.String.{len}
use dshker_server.Config.{
  Config, Parsers, endpoints_valid, is_origin, is_wss, paths_absolute, paths_clash, ports_set,
  ports_wrong, turn_listen, valid_endpoint, validate, validate_relay,
}
use dshker_server.Prelude.{
  arith, bind_ok, explicit_absolute_path_required, false, if◌then◌else◌, invalid_endpoint,
  invalid_https_origin, invalid_wss_endpoint, is_some, not, ok, or_fail, path_conflict, reject_ok,
  true, ◌&&◌, ◌=s=◌, ◌≡◌, ◌≤◌,
}

module _ (parsers : Parsers) where
  -- The checks that both ports and addresses rest on.
  pub record IsValid (c : Config) : Type 0 where
    pub stun : valid_endpoint c.stun_address ≡ true
    pub relay : (c.turn_shared_secret =s= "") ≡ false → validate_relay parsers c ≡ ok tt

  pub validate_ok : (c : Config) → validate parsers c ≡ ok tt → IsValid c
  unfolding validate
  validate_ok c h =
      let (origin, _, h1) =
        bind_ok (or_fail (parsers.parse_url c.https_origin) invalid_https_origin) _ h in
      let (_, h2) = reject_ok (not (is_origin origin)) invalid_https_origin _ h1 in
      let (wss, _, h3) =
        bind_ok (or_fail (parsers.parse_url c.wss_url) invalid_wss_endpoint) _ h2 in
      let (_, h4) = reject_ok (not (is_wss origin wss)) invalid_wss_endpoint _ h3 in
      let (good, h5) = reject_ok (not (endpoints_valid c)) invalid_endpoint _ h4 in
      let (_, h6) = reject_ok (not (paths_absolute c)) explicit_absolute_path_required _ h5 in
      let (_, h7) =
        reject_ok (paths_clash c) path_conflict
          (if c.turn_shared_secret =s= "" then ok tt else validate_relay parsers c) h6 in
      record { stun = ground arith; relay = λ ne. rw ne at h7 }

  -- What the relay's checks leave.
  pub record IsRelay (c : Config) : Type 0 where
    pub secret : 32 ≤ len c.turn_shared_secret
    pub listen : valid_endpoint (turn_listen c) ≡ true
    pub ip : is_some (parsers.parse_ip c.relay_public_ip) ≡ true
    pub ports : (ports_set c && ports_wrong c) ≡ false

  pub validate_relay_ok : (c : Config) → validate_relay parsers c ≡ ok tt → IsRelay c
  unfolding validate_relay
  validate_relay_ok c h = record {
    secret = ground arith;
    listen = ground arith;
    ip = ground arith;
    ports = ground arith;
  }
