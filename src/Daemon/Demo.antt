-- ===== src/Daemon/Demo.antt =====
-- crates/aegiuw-daemon/src/main.rs: the samples of `main`, the rows that it prints for them without the
-- padding, and `describe_outcome`.
use aegiuw.Prelude.{
  Bytes, all, ℕ, ◌≡◌, refl, sym, ap, ◌≢◌, Bool, true, List, [], ◌∷◌, ◌++◌, map, arith,
}
use aegiuw.Prelude.Text.{codes}
use aegiuw.Sni.Types.{SniOutcome, cleartext, encrypted, not_found, malformed}
use aegiuw.Sni.ServerName.{is_ldh}
use aegiuw.Sni.Extract.{extract_sni}
use aegiuw.Sni.Extract.Hosts.{Says, hello_of, extract_sni-Says}
use aegiuw.Risk.{RiskLevel, allows_native_path}
use aegiuw.Daemon.{assess, client_hello, sni_extension, ech_then_decoy_sni}

pub record Sample : Type 0 where
  pub label : Bytes
  pub hello : Bytes
  pub parent_process : Bytes

unfoldable pub describe_outcome : SniOutcome → Bytes
describe_outcome (cleartext host) = codes "host=" ++ host
describe_outcome encrypted = codes "host=<encrypted>"
describe_outcome not_found = codes "host=<absent>"
describe_outcome malformed = codes "host=<malformed>"

abbrev pub samples : List Sample
samples =
    record {
      label = codes "cached host, from browser";
      hello = client_hello (sni_extension (codes "github.com"));
      parent_process = codes "Google Chrome";
    }
    ∷ record {
      label = codes "typosquat, from browser";
      hello = client_hello (sni_extension (codes "micr0soft.com"));
      parent_process = codes "Google Chrome";
    }
    ∷ record {
      label = codes "unknown host, from email";
      hello = client_hello (sni_extension (codes "totally-new-vendor.io"));
      parent_process = codes "Outlook";
    }
    ∷ record {
      label = codes "ECH (encrypted SNI)";
      hello = client_hello (ech_then_decoy_sni (codes "cloudflare-ech.com"));
      parent_process = codes "Google Chrome";
    }
    ∷ record {
      label = codes "non-TLS / malformed bytes";
      hello = 0xff ∷ 0xff ∷ 0xff ∷ 0xff ∷ [];
      parent_process = codes "unknown";
    }
    ∷ []

pub record Row : Type 0 where
  pub label : Bytes
  pub observed : Bytes
  pub parent_process : Bytes
  pub level : RiskLevel
  pub native : Bool

unfoldable pub demo_row : Sample → Row
unfolding describe_outcome
demo_row sample =
    let (outcome, verdict) = assess sample.hello sample.parent_process in
    record {
      label = sample.label;
      observed = describe_outcome outcome;
      parent_process = sample.parent_process;
      level = verdict.level;
      native = allows_native_path verdict;
    }

unfoldable pub demo_rows : List Row
demo_rows = map demo_row samples

-- A host of letters, digits, hyphens and dots.
Plain : SniOutcome → Type 0
Plain (cleartext host) = all is_ldh host ≡ true
Plain _ = Unit

extract_sni-Plain : (bytes : Bytes) → Plain (extract_sni bytes)
unfolding Plain
extract_sni-Plain bytes = go (extract_sni bytes) (extract_sni-Says bytes)
  where
    go : (o : SniOutcome) → Says o (hello_of bytes) → Plain o
    go (cleartext h) (m, p, q, n, v) = v.ldh
    go encrypted s = tt
    go not_found s = tt
    go malformed s = tt

not-angled : (h s : Bytes) → all is_ldh h ≡ true → h ≢ b'<' ∷ s
not-angled h s k e = absurd (cc (rw e at k))

-- The letter behind `host=<`.
abbrev seventh : Bytes → ℕ
seventh (_ ∷ _ ∷ _ ∷ _ ∷ _ ∷ _ ∷ c ∷ _) = c
seventh _ = 0

describe_outcome-injective :
    (o p : SniOutcome) → Plain o → Plain p → describe_outcome o ≡ describe_outcome p → o ≡ p
unfolding describe_outcome Plain
describe_outcome-injective (cleartext h) (cleartext k) a b e = cc e
describe_outcome-injective (cleartext h) encrypted a b e =
    absurd (not-angled h (codes "encrypted>") a (cc e))
describe_outcome-injective (cleartext h) not_found a b e =
    absurd (not-angled h (codes "absent>") a (cc e))
describe_outcome-injective (cleartext h) malformed a b e =
    absurd (not-angled h (codes "malformed>") a (cc e))
describe_outcome-injective encrypted (cleartext h) a b e =
    absurd (not-angled h (codes "encrypted>") b (cc (sym e)))
describe_outcome-injective not_found (cleartext h) a b e =
    absurd (not-angled h (codes "absent>") b (cc (sym e)))
describe_outcome-injective malformed (cleartext h) a b e =
    absurd (not-angled h (codes "malformed>") b (cc (sym e)))
describe_outcome-injective encrypted encrypted a b e = refl
describe_outcome-injective not_found not_found a b e = refl
describe_outcome-injective malformed malformed a b e = refl
describe_outcome-injective encrypted not_found a b e = absurd (omega (arith, ap seventh e))
describe_outcome-injective encrypted malformed a b e = absurd (omega (arith, ap seventh e))
describe_outcome-injective not_found encrypted a b e = absurd (omega (arith, ap seventh e))
describe_outcome-injective not_found malformed a b e = absurd (omega (arith, ap seventh e))
describe_outcome-injective malformed encrypted a b e = absurd (omega (arith, ap seventh e))
describe_outcome-injective malformed not_found a b e = absurd (omega (arith, ap seventh e))

-- Two connections whose rows describe the same observation have the same outcome: no host that the
-- parser lets through reads like one of the other descriptions.
pub demo_row-observed :
    (s t : Sample)
    → (demo_row s).observed ≡ (demo_row t).observed
    → extract_sni s.hello ≡ extract_sni t.hello
unfolding demo_row assess
demo_row-observed s t e =
    describe_outcome-injective _ _ (extract_sni-Plain s.hello) (extract_sni-Plain t.hello) e
