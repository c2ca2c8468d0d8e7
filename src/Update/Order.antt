-- ===== src/Update/Order.antt =====
-- `Compare` of update.go as an order.
use Prim.Native.String.{String}
use onegw.Prelude.{
  ◌≡◌, refl, sym, ◌∙◌, ap, Bool, true, false, not, ◌&&◌, Option, none, some, str_eq, if◌then◌else◌,
}
use onegw.Update.{
  Sign, less, more, Semver, cmp3, compare_strings, parse_semver, compare_pre, compare_semver,
  compare,
}
use onegw.Update.Signs.{
  flip, Chain, Chain-or_next, flip-or_next, less_from, more_from, less_to, more_to, cmp3-flip,
  cmp3-Chain, strings-flip, strings-Chain,
}
use onegw.Update.Prereleases.{pre-flip, pre-Chain}

-- Of two versions one may be a release.
ranked : Bool → Bool → Sign → Sign
ranked p q s = if p && not q then more else if not p && q then less else s

ranked-flip : (p q : Bool) (x x' : Sign) → x' ≡ flip x → ranked q p x' ≡ flip (ranked p q x)
unfolding ranked
ranked-flip true true x x' h = h
ranked-flip true false x x' h = refl
ranked-flip false true x x' h = refl
ranked-flip false false x x' h = h

ranked-Chain :
    (p q r : Bool) (x y z : Sign) → Chain x y z → Chain (ranked p q x) (ranked q r y) (ranked p r z)
unfolding ranked
ranked-Chain true true true x y z h = h
ranked-Chain true true false x y z h = more_to x
ranked-Chain true false true x y z h = tt
ranked-Chain true false false x y z h = more_from y
ranked-Chain false true true x y z h = less_from y
ranked-Chain false true false x y z h = tt
ranked-Chain false false true x y z h = less_to x
ranked-Chain false false false x y z h = h

abbrev release : Semver → Bool
release v = str_eq v.pre ""

abbrev pre : Semver → Semver → Sign
pre v w = ranked (release v) (release w) (compare_pre v.pre w.pre)

semver-flip : (v w : Semver) → compare_semver w v ≡ flip (compare_semver v w)
unfolding compare_semver ranked
semver-flip v w = flip-or_next (cmp3 v.major w.major) _ (cmp3-flip v.major w.major) (
    flip-or_next (cmp3 v.minor w.minor) _ (cmp3-flip v.minor w.minor) (
      flip-or_next (cmp3 v.patch w.patch) (pre v w) (cmp3-flip v.patch w.patch) (
        ranked-flip (release v) (release w) (compare_pre v.pre w.pre) (compare_pre w.pre v.pre)
          (pre-flip v.pre w.pre))))

semver-Chain :
    (v w x : Semver) → Chain (compare_semver v w) (compare_semver w x) (compare_semver v x)
unfolding compare_semver ranked
semver-Chain v w x =
    Chain-or_next (cmp3 v.major w.major) (cmp3 w.major x.major) (cmp3 v.major x.major) _ _ _
      (cmp3-Chain v.major w.major x.major)
      (Chain-or_next (cmp3 v.minor w.minor) (cmp3 w.minor x.minor) (cmp3 v.minor x.minor) _ _ _
        (cmp3-Chain v.minor w.minor x.minor)
        (Chain-or_next (cmp3 v.patch w.patch) (cmp3 w.patch x.patch) (cmp3 v.patch x.patch)
          (pre v w) (pre w x) (pre v x) (cmp3-Chain v.patch w.patch x.patch)
          (ranked-Chain (release v) (release w) (release x) (compare_pre v.pre w.pre)
            (compare_pre w.pre x.pre) (compare_pre v.pre x.pre) (pre-Chain v.pre w.pre x.pre))))

-- Two texts of which each may be a version.
readings : Option Semver → Option Semver → String → String → Sign
readings none none a b = compare_strings a b
readings none (some w) a b = less
readings (some v) none a b = more
readings (some v) (some w) a b = compare_semver v w

readings-flip : (o p : Option Semver) (a b : String) → readings p o b a ≡ flip (readings o p a b)
unfolding readings
readings-flip none none a b = strings-flip a b
readings-flip none (some w) a b = refl
readings-flip (some v) none a b = refl
readings-flip (some v) (some w) a b = semver-flip v w

readings-Chain :
    (o p q : Option Semver) (a b c : String)
    → Chain (readings o p a b) (readings p q b c) (readings o q a c)
unfolding readings
readings-Chain none none none a b c = strings-Chain a b c
readings-Chain none none (some x) a b c = less_to (compare_strings a b)
readings-Chain none (some w) none a b c = tt
readings-Chain none (some w) (some x) a b c = less_from (compare_semver w x)
readings-Chain (some v) none none a b c = more_from (compare_strings b c)
readings-Chain (some v) none (some x) a b c = tt
readings-Chain (some v) (some w) none a b c = more_to (compare_semver v w)
readings-Chain (some v) (some w) (some x) a b c = semver-Chain v w x

compare-readings : (a b : String) → compare a b ≡ readings (parse_semver a) (parse_semver b) a b
unfolding compare readings
compare-readings a b = by_reading (parse_semver a) (parse_semver b)
  where
    by_reading :
        (o p : Option Semver)
        → (elim o [
          | none ↦ elim p [ none ↦ compare_strings a b | some w ↦ less ]
          | some v ↦ elim p [ none ↦ more | some w ↦ compare_semver v w ]
        ])
          ≡ readings o p a b
    by_reading none none = refl
    by_reading none (some w) = refl
    by_reading (some v) none = refl
    by_reading (some v) (some w) = refl

-- `Compare` is a total order up to ties: exchanged arguments flip its sign, and the signs of a to b and of
-- b to c agree with that of a to c: of the two, one that is `same` leaves the other, and equal ones stay.
pub compare-Chain :
    (a b c : String)
    → (compare b a ≡ flip (compare a b)) × Chain (compare a b) (compare b c) (compare a c)
compare-Chain a b c = (
  compare-readings b a
      ∙ readings-flip (parse_semver a) (parse_semver b) a b
      ∙ ap flip (sym (compare-readings a b)),
  rw (compare-readings a b, compare-readings b c, compare-readings a c)
      (readings-Chain (parse_semver a) (parse_semver b) (parse_semver c) a b c),
)
