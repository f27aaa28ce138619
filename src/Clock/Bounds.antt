-- ===== src/Clock/Bounds.antt =====
-- How far the order of the timestamp texts is from the order of the instants.
use lineage_collection.Prelude.{ℕ, ◌+◌, ◌%◌, ◌≤◌, ◌<◌, ◌≡◌, ◌≢◌, true, false, leb, refl, arith}
use lineage_collection.Clock.{second, utc_text, parse_utc, text_leb}

-- Reading back a timestamp text gives the instant that was written.
pub parse_utc-utc_text : (t : ℕ) → parse_utc (utc_text t) ≡ t
parse_utc-utc_text t = omega arith

-- If the text of `a` is not after that of `b`, then `a` is less than a second after `b`.
pub text_leb-lt : (a b : ℕ) → text_leb a b ≡ true → a < b + second
unfolding text_leb
text_leb-lt a b h = ground arith

-- If `b` is at least a second after `a`, the texts are in that order.
pub le-text_leb : (a b : ℕ) → a + second ≤ b → text_leb a b ≡ true
unfolding text_leb
le-text_leb a b h = ground arith

-- Where both instants have a fraction of a second, the texts are ordered as the instants.
pub text_leb_exact : (a b : ℕ) → a % second ≢ 0 → b % second ≢ 0 → text_leb a b ≡ leb a b
unfolding text_leb
text_leb_exact a b ha hb = ground arith

pub text_leb_refl : (a : ℕ) → text_leb a a ≡ true
unfolding text_leb
text_leb_refl a = ground arith

-- The order is total.
pub text_leb_total : (a b : ℕ) → text_leb a b ≡ false → text_leb b a ≡ true
unfolding text_leb
text_leb_total a b h = ground arith

pub text_leb_trans : (a b c : ℕ) → text_leb a b ≡ true → text_leb b c ≡ true → text_leb a c ≡ true
unfolding text_leb
text_leb_trans a b c h k = ground arith

-- Half past a second is written before the second itself.
pub text_leb_inverted : text_leb 5500000 5000000 ≡ true
unfolding text_leb
text_leb_inverted = refl
