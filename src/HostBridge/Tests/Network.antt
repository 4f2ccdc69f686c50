-- ===== src/HostBridge/Tests/Network.antt =====
-- Requests, webhooks and messages of the tests.
use noqeri_registry.Prelude.{any, ◌≡◌, ◌↔◌, refl, true, List, [], ◌∷◌, Option, none, some, arith}
use noqeri_registry.Prelude.Text.{
  Bytes, codes, str_eq, has_prefix, has_suffix, contains_byte, contains_any, contains, split, cut,
  trim_left, trim_space, is_space, to_lower, to_upper, is_ascii, lower_byte, upper_byte,
  replace_byte, equal_fold,
}
use noqeri_registry.Prelude.Number.{
  pos, parse_int, parse_uint, scan_digits, format_nat, digits, hex_decode, hex_digit,
}
use noqeri_registry.HostBridge.Error.{ok, err, code, stripe_webhook_timestamp_expired}
use noqeri_registry.HostBridge.Payment.{
  verify_stripe_signature, match_signatures, read_items, read_time, read_signature, positive,
}
use noqeri_registry.HostBridge.Payment.Signature.{IsAuthentic, verify_stripe_signature_iff}
use noqeri_registry.HostBridge.Http.Providers.{
  provider_hosts, hosts_of, host_matches, allowed_host, is_configured, tenant_host_allowed,
}
use noqeri_registry.HostBridge.Http.Net.{
  Ip, v4, public_ip, first_public, dial_target, is_loopback, is_unspecified, is_broadcast,
  is_multicast, is_link_local_unicast, is_private, is_global_unicast, has_bits, in_block,
  extra_blocks,
}
use noqeri_registry.HostBridge.Http.Execute.{
  Call, Request, check_call, check_url, vet, authorize, supabase_jwt, idempotency, is_firebase,
  content_headers, build_request, receive, execute, methods, is_plain_https, has_odd_text,
  token_variable, is_bad_key,
}
use noqeri_registry.HostBridge.Engine.Walks.{is_found, find_provider_unordered}
use mathlib.Core.List.Perm
use noqeri_registry.HostBridge.Http.Public.{
  IsOctets, IsOutside, number, refused_ranges, IsFirstPublic, public_ip-v4_iff,
  dial_target-IsFirstPublic,
}
use noqeri_registry.HostBridge.Http.Answer.{Ends, execute-Ends}
use noqeri_registry.HostBridge.Message.{Message, no_message, settle}
use noqeri_registry.HostBridge.Engine.Defs.{
  new_engine, dispatch, dispatch_with, dispatch_service, dispatch_op, read_op, read_symbol,
  extern_reply, invoke_extern, invoke_symbol, http_json, http_with, find_provider, http_reply,
}
use noqeri_registry.HostBridge.Engine.Replies.{IsReply, dispatch-IsReply}
use noqeri_registry.HostBridge.Tests.Fixtures.{env, variable, unicode, user_url, web, hmac, outside}

text : Unit {0}
unfolding codes str_eq has_prefix has_suffix contains_byte contains_any contains split cut trim_left
    trim_space is_space to_lower to_upper is_ascii lower_byte upper_byte replace_byte equal_fold
    parse_int parse_uint scan_digits format_nat digits hex_decode hex_digit env variable web hmac
    outside
text = tt

requests : Unit {0}
unfolding text provider_hosts hosts_of host_matches allowed_host is_configured tenant_host_allowed
    check_call check_url vet authorize supabase_jwt idempotency is_firebase content_headers
    build_request receive execute methods is_plain_https has_odd_text token_variable is_bad_key
requests = tt

webhooks : Unit {0}
unfolding text verify_stripe_signature match_signatures read_items read_time read_signature positive
webhooks = tt

addresses : Unit {0}
unfolding text public_ip first_public dial_target is_loopback is_unspecified is_broadcast
    is_multicast is_link_local_unicast is_private is_global_unicast has_bits in_block extra_blocks
addresses = tt

messages : Unit {0}
unfolding requests dispatch dispatch_with dispatch_service dispatch_op read_op read_symbol
    extern_reply invoke_extern invoke_symbol http_json http_with find_provider http_reply new_engine
    settle code
messages = tt

abbrev secret : Bytes
secret = codes "whsec_0123456789"

-- The digest is the fixture's: thirty-two times the length of the secret and the signed text.
abbrev header : Bytes
header = codes "t=1700000000,v1=1d1d1d1d1d1d1d1d1d1d1d1d1d1d1d1d1d1d1d1d1d1d1d1d1d1d1d1d1d1d1d1d"

authentic : verify_stripe_signature hmac unicode (codes "{}") header secret 1700000100 ≡ ok tt
unfolding webhooks
authentic = refl

late :
    verify_stripe_signature hmac unicode (codes "{}") header secret 1700000301
    ≡ err stripe_webhook_timestamp_expired
unfolding webhooks
late = refl

verify_stripe_signature_iff_example :
    (verify_stripe_signature hmac unicode (codes "{}") header secret 1700000100 ≡ ok tt)
    ↔ IsAuthentic hmac unicode (codes "{}") header secret 1700000100
verify_stripe_signature_iff_example =
    verify_stripe_signature_iff hmac unicode (codes "{}") header secret 1700000100

abbrev call : Call
call = record {
  provider = codes "github";
  method = codes "GET";
  url = codes "https://api.github.com/user";
  body = [];
}

abbrev request : Request
request = record {
  method = codes "GET";
  url = user_url;
  body = [];
  headers =
      (codes "User-Agent", codes "noqeri-go-host/1")
      ∷ (codes "Accept", codes "application/json")
      ∷ (codes "Authorization", codes "Bearer ghp_0123456789")
      ∷ [];
  query = none;
}

execute-Ends_example : Ends web env call (execute web env call)
execute-Ends_example = execute-Ends web env call

find_provider_unordered_example :
    (is_found (find_provider outside (codes "Shop.auth0.com") (codes "auth0" ∷ codes "stripe" ∷ []))
      ≡ any
          (λ name. allowed_host outside.web.unicode name (codes "Shop.auth0.com"))
          (codes "auth0" ∷ codes "stripe" ∷ []))
    × (find_provider outside (codes "Shop.auth0.com") (codes "auth0" ∷ codes "stripe" ∷ [])
        ≡ find_provider outside (codes "Shop.auth0.com") (codes "stripe" ∷ codes "auth0" ∷ []))
find_provider_unordered_example =
    find_provider_unordered outside (codes "Shop.auth0.com") (codes "auth0" ∷ codes "stripe" ∷ [])
      (codes "stripe" ∷ codes "auth0" ∷ []) (Perm.swap _ _ _)

octets : IsOctets 140 82 112 3
octets = record {
  first = omega arith;
  second = omega arith;
  third = omega arith;
  fourth = omega arith;
}

public_ip-v4_iff_example :
    (public_ip (v4 140 82 112 3) ≡ true) ↔ IsOutside (number 140 82 112 3) refused_ranges
public_ip-v4_iff_example = public_ip-v4_iff 140 82 112 3 octets

abbrev records : Bytes → Option (List Ip)
records host = some (v4 10 0 0 1 ∷ v4 140 82 112 3 ∷ [])

abbrev split_port : Bytes → Option (Bytes × Bytes)
split_port address = some (codes "api.github.com", codes "443")

dialled :
    dial_target split_port records (codes "api.github.com:443") ≡ ok (v4 140 82 112 3, codes "443")
unfolding addresses
dialled = refl

dial_target-IsFirstPublic_example :
    (host : Bytes) × (found : List Ip) × (split_port (codes "api.github.com:443")
      ≡ some (host, codes "443"))
    × (codes "443" ≡ codes "443")
    × (records host ≡ some found)
    × IsFirstPublic (v4 140 82 112 3) found
dial_target-IsFirstPublic_example =
    dial_target-IsFirstPublic split_port records (codes "api.github.com:443") (codes "443")
      (v4 140 82 112 3) dialled

abbrev ask : Message
ask = record no_message {
  version = pos 1;
  id = codes "a";
  op = codes "invoke";
  symbol = codes "providerHttpJson";
  arguments = codes "GET" ∷ codes "https://api.github.com/user" ∷ [] ∷ [] ∷ [] ∷ [] ∷ [] ∷ [];
}

asked :
    ((dispatch outside ask new_engine).0.status ≡ 200)
    × ((dispatch outside ask new_engine).0.ok ≡ true)
    × ((dispatch outside ask new_engine).0.body ≡ codes "ok")
    × ((dispatch outside ask new_engine).1.last_status ≡ 200)
unfolding messages
asked = (refl, refl, refl, refl)

dispatch-IsReply_example : IsReply (codes "a") (dispatch outside ask new_engine).0
dispatch-IsReply_example = dispatch-IsReply outside ask new_engine
