-- ===== src/Reputation.antt =====
-- pkg/reputation: the results of a lookup.
pub mod Snapshot
use cpak.Base.{
  ℕ, ◌≡◌, ◌↔◌, Bool, true, false, [], ◌∷◌, arith, Eq, Text, ascii, text_beq, text_beq_iff,
}
use cpak.Go.Regexp.{Regexp, class, seq, alt, lit, char, times, up_to, match_string}
use cpak.Go.Time.{Instant, zero_time}
use cpak.TrustPolicy.Origin.{alnum, name_class}

-- Go's `Status` is a string; `other` is any text that is no constant of the package.
pub data Status : Type 0 where
  unknown established caution blocked unavailable : Status
  other : Text → Status

abbrev pub status_beq : Status → Status → Bool
status_beq unknown unknown = true
status_beq established established = true
status_beq caution caution = true
status_beq blocked blocked = true
status_beq unavailable unavailable = true
status_beq (other a) (other b) = text_beq a b
status_beq _ _ = false

pub status_beq_iff : (a b : Status) → (status_beq a b ≡ true) ↔ (a ≡ b)
status_beq_iff (other a) (other b) = ground (arith, text_beq_iff a b)
status_beq_iff _ _ = ground arith

instance abbrev pub status_eq : Eq Status
status_eq = record { same = status_beq; same_iff = status_beq_iff }

-- `^[a-z0-9][a-z0-9._-]{0,63}$`
abbrev pub name_pattern : Regexp
name_pattern = seq alnum (up_to 63 name_class)

-- `^(oidc-v1-sha256|x509-spki-sha256):[0-9a-f]{64}$`
abbrev publisher_pattern : Regexp
publisher_pattern =
    seq (alt (lit (ascii "oidc-v1-sha256")) (lit (ascii "x509-spki-sha256")))
      (seq (char b':') (times 64 (class ((b'0', b'9') ∷ (b'a', b'f') ∷ []))))

unfoldable pub valid_publisher_id : Text → Bool
valid_publisher_id value = match_string publisher_pattern value

pub record Result : Type 0 where
  pub provider_id : Text
  pub publisher_id : Text
  pub status : Status
  pub issued_at : Instant
  pub expires_at : Instant
  pub sequence : ℕ
  pub reason_code : Text

unfoldable pub unavailable_result : Text → Text → Text → Result
unavailable_result provider publisher reason = record {
  provider_id = provider;
  publisher_id = publisher;
  status = unavailable;
  issued_at = zero_time;
  expires_at = zero_time;
  sequence = 0;
  reason_code = reason;
}

unfoldable pub valid_entry_status : Status → Bool
valid_entry_status unknown = true
valid_entry_status established = true
valid_entry_status caution = true
valid_entry_status blocked = true
valid_entry_status _ = false
