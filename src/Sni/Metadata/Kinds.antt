-- ===== src/Sni/Metadata/Kinds.antt =====
-- crates/aegiuw-core/src/sni.rs, the `kind` labels of `AlpnProtocol`, `TlsVersion`, `KeyShareGroup` and
-- `UnstableExtension`.
use aegiuw.Prelude.{Bytes, ◌≡◌, arith}
use aegiuw.Prelude.Text.{codes}
use aegiuw.Sni.Metadata.Alpn
use aegiuw.Sni.Metadata.Alpn.{AlpnProtocol, http10, http11, http2, http3}
use aegiuw.Sni.Metadata.Versions
use aegiuw.Sni.Metadata.Versions.{TlsVersion, ssl30, tls10, tls11, tls12, tls13}
use aegiuw.Sni.Metadata.Groups
use aegiuw.Sni.Metadata.Groups.{
  KeyShareGroup, secp256r1, x25519, x25519_ml_kem768, sec_p256r1_ml_kem768, x25519_kyber768_draft00,
}
use aegiuw.Sni.Metadata.Unstable.{UnstableExtension, ech_draft, tls_flags, trust_anchor_ids}

unfoldable pub protocol_kind : AlpnProtocol → Bytes
protocol_kind http10 = codes "http_1_0"
protocol_kind http11 = codes "http_1_1"
protocol_kind http2 = codes "http_2"
protocol_kind http3 = codes "http_3"
protocol_kind Alpn.other = codes "other"

unfoldable pub version_kind : TlsVersion → Bytes
version_kind ssl30 = codes "ssl_3_0"
version_kind tls10 = codes "tls_1_0"
version_kind tls11 = codes "tls_1_1"
version_kind tls12 = codes "tls_1_2"
version_kind tls13 = codes "tls_1_3"
version_kind Versions.other = codes "other"

unfoldable pub group_kind : KeyShareGroup → Bytes
group_kind secp256r1 = codes "secp256r1"
group_kind x25519 = codes "x25519"
group_kind x25519_ml_kem768 = codes "x25519_mlkem768"
group_kind sec_p256r1_ml_kem768 = codes "secp256r1_mlkem768"
group_kind x25519_kyber768_draft00 = codes "x25519_kyber768_draft00"
group_kind Groups.other = codes "other"

unfoldable pub unstable_kind : UnstableExtension → Bytes
unstable_kind ech_draft = codes "ech_draft"
unstable_kind tls_flags = codes "tls_flags"
unstable_kind trust_anchor_ids = codes "trust_anchor_ids"

protocol_kind-injective : (a b : AlpnProtocol) → protocol_kind a ≡ protocol_kind b → a ≡ b
unfolding protocol_kind
protocol_kind-injective a b e = ground arith

version_kind-injective : (a b : TlsVersion) → version_kind a ≡ version_kind b → a ≡ b
unfolding version_kind
version_kind-injective a b e = ground arith

group_kind-injective : (a b : KeyShareGroup) → group_kind a ≡ group_kind b → a ≡ b
unfolding group_kind
group_kind-injective a b e = ground arith
