-- ===== src/Framework/Ranges/Inside.antt =====
-- The functions on ranges, by the locations that are in a range.
use hex_fiend.Prelude.{ℕ, ◌+◌, ◌≤◌, ◌<◌, true, ◌&&◌, ◌≡◌, ◌↔◌, arith, Bool-cases, inl, inr, max}
use hex_fiend.Framework.Word.{IsWord}
use hex_fiend.Framework.Word.Bounds.{hf_sum_is_larger_than_sum_iff}
use hex_fiend.Framework.Ranges.{
  HfRange, hf_location_in_range, hf_range_is_subrange_of_range, hf_intersects_range,
  hf_range_extends_past_range, hf_intersection_range,
}

-- Both numbers of a range are words.
pub record IsRange (r : HfRange) : Type 0 where
  pub location_word : IsWord r.location
  pub length_word : IsWord r.length

-- A location is in a range if it is between its ends, which are taken without overflow.
pub hf_location_in_range_iff :
    (x : ℕ) (r : HfRange)
    → IsWord x
    → IsRange r
    → (hf_location_in_range x r ≡ true) ↔ ((r.location ≤ x) × (x < r.location + r.length))
unfolding hf_location_in_range
hf_location_in_range_iff x r hx h = ground (arith, h.location_word, h.length_word)

-- One range is a subrange of another exactly if it starts and ends within it, whether or not the
-- ends are words.
pub hf_range_is_subrange_of_range_iff :
    (needle haystack : HfRange)
    → IsRange needle
    → IsRange haystack
    → (hf_range_is_subrange_of_range needle haystack ≡ true) ↔ (
        (haystack.location ≤ needle.location)
        × (needle.location + needle.length ≤ haystack.location + haystack.length))
unfolding hf_range_is_subrange_of_range
hf_range_is_subrange_of_range_iff needle haystack hn hh =
    ground (arith, hn.location_word, hn.length_word, hh.location_word, hh.length_word)

-- Two ranges intersect exactly if a location is in both.
pub hf_intersects_range_iff :
    (a b : HfRange)
    → IsRange a
    → IsRange b
    → (hf_intersects_range a b ≡ true)
      ↔ ((x : ℕ) × IsWord x × (hf_location_in_range x a ≡ true) × (hf_location_in_range x b ≡ true))
unfolding hf_intersects_range hf_location_in_range
hf_intersects_range_iff a b ha hb = (
  λ h. (
    max a.location b.location,
    ground (arith, ha.location_word, hb.location_word),
    ground (arith, h, ha.location_word, hb.location_word, ha.length_word, hb.length_word),
    ground (arith, h, ha.location_word, hb.location_word, ha.length_word, hb.length_word),
  ),
  λ (x, hx, in_a, in_b).
      ground
        (arith, hx, in_a, in_b, ha.location_word, hb.location_word, ha.length_word, hb.length_word),
)

hf_range_extends_past_range_iff :
    (a b : HfRange)
    → IsRange a
    → IsRange b
    → (hf_range_extends_past_range a b ≡ true) ↔ (b.location + b.length < a.location + a.length)
unfolding hf_range_extends_past_range
hf_range_extends_past_range_iff a b ha hb =
    hf_sum_is_larger_than_sum_iff a.location a.length b.location b.length ha.location_word
      ha.length_word hb.location_word hb.length_word

-- A location is in the intersection of two ranges exactly if it is in both, even if the end of a
-- range is no word.
pub hf_intersection_range_lem :
    (a b : HfRange) (x : ℕ)
    → IsRange a
    → IsRange b
    → IsWord x
    → hf_location_in_range x (hf_intersection_range a b)
      ≡ hf_location_in_range x a && hf_location_in_range x b
unfolding hf_intersection_range hf_location_in_range
hf_intersection_range_lem a b x ha hb hx =
    let larger = hf_range_extends_past_range_iff b a hb ha in
    elim (Bool-cases (hf_range_extends_past_range b a)) [
      | inl past ↦
          let ends = larger.0 past in
          rw past (
            ground
              (arith, ends, ha.location_word, hb.location_word, ha.length_word, hb.length_word))
      | inr within ↦
          let ends : b.location + b.length ≤ a.location + a.length =
            ground (arith, larger.1, within) in
          rw within (
            ground
              (arith, ends, ha.location_word, hb.location_word, ha.length_word, hb.length_word))
    ]
