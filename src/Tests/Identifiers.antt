-- ===== src/Tests/Identifiers.antt =====
-- Identifiers, DER values and grants on concrete inputs.
use go_acme_server.Prelude.{◌≡◌, ◌⊎◌, ◌↔◌, refl, arith, true, false, String, [], ◌∷◌, ◌++◌, length}
use go_acme_server.Resource.{Bytes}
use go_acme_server.Problem.{Identifier, dns}
use go_acme_server.Text.{to_lower, lower_char, split, trim_prefix}
use go_acme_server.Identifiers.{
  named, normalize, normalize_dns, check_dns_name, check_labels, check_dns_label, valid_a_label,
  normalize_loop, normalize_identifiers, valid_nf_type,
}
use go_acme_server.Identifiers.Canonical.{IsDocumented}
use go_acme_server.Identifiers.Set.{
  AreNormalized, AllFixed, AllDistinct, normalize_identifiers-AllFixed,
}
use go_acme_server.Server.{ValidationGrant}
use go_acme_server.Worker.Grant.{AllUsable, check_grant, name_loop, check_grant-usable}
use go_acme_server.Der.{Tlv, tlv, take_bytes, cut}
use go_acme_server.Der.Canonical.{encode, tlv-encode}
use go_acme_server.TnAuthList.{skip_fields}
use go_acme_server.TnAuthList.Fields.{IsFields, skip_fields_iff}
use go_acme_server.Tests.Data.{a_platform, example_com}

pub documented : IsDocumented a_platform
documented = record {
  again = λ value a h. absurd (ground arith);
  nothing = refl;
  lower_other_stays = λ c h. (ground arith, ground arith);
}

abbrev spelled : Identifier
spelled = named dns "Example.com"

normalize_identifiers-AllFixed_example :
    AllFixed a_platform (example_com ∷ [])
    × AllDistinct (example_com ∷ [])
    × (length (example_com ∷ []) ≡ length (spelled ∷ []))
    × AreNormalized a_platform (spelled ∷ []) (example_com ∷ [])
unfolding normalize_identifiers normalize_loop normalize normalize_dns check_dns_name check_labels
    check_dns_label valid_a_label to_lower lower_char split trim_prefix
normalize_identifiers-AllFixed_example =
    normalize_identifiers-AllFixed a_platform documented (spelled ∷ []) (example_com ∷ [])
      (refl, tt) refl

abbrev a_grant : ValidationGrant
a_grant = record {
  ca_certificate = false;
  expires = 90;
  names = spelled ∷ example_com ∷ [];
  nf_type = "";
}

check_grant-usable_example :
    AllUsable a_platform (example_com ∷ [])
    × AllDistinct (example_com ∷ [])
    × ((◌≡◌ {A = String} "" "") ⊎ (valid_nf_type "" ≡ true))
    × (false ≡ a_grant.ca_certificate)
    × (90 ≡ a_grant.expires)
unfolding check_grant name_loop normalize normalize_dns check_dns_name check_labels check_dns_label
    valid_a_label to_lower lower_char split trim_prefix valid_nf_type
check_grant-usable_example =
    check_grant-usable a_platform a_grant (record a_grant { names = example_com ∷ [] }) refl

-- An INTEGER of one byte, and another byte.
abbrev a_buffer : Bytes
a_buffer = 2 ∷ 1 ∷ 5 ∷ 7 ∷ []

abbrev an_integer : Tlv
an_integer = record { tag = 2; content = 5 ∷ []; rest = 7 ∷ [] }

tlv-encode_example : a_buffer ≡ encode 2 (5 ∷ []) ++ 7 ∷ []
unfolding tlv cut take_bytes
tlv-encode_example =
    tlv-encode a_buffer an_integer (omega arith, (omega arith, (omega arith, (omega arith, tt))))
      refl

skip_fields_iff_example :
    (skip_fields 6 (2 ∷ 1 ∷ 7 ∷ 5 ∷ 0 ∷ []) ≡ true) ↔ IsFields (2 ∷ 1 ∷ 7 ∷ 5 ∷ 0 ∷ [])
skip_fields_iff_example = skip_fields_iff 6 (2 ∷ 1 ∷ 7 ∷ 5 ∷ 0 ∷ []) (omega arith)
