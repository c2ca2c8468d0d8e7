-- ===== src/Pool/Walls.antt =====
-- Burst walls, pins and the flap breaker of provider.go.
use onegw.Prelude.{
  ℕ, suc, ◌+◌, ◌-◌, ◌≤◌, ◌<◌, ◌≡◌, refl, String, Bool, true, false, not, ◌&&◌, ◌||◌, none, some,
  List, [], ◌∷◌, arith, length, leb, str_eq, Bool-cases, inl, inr,
}
use onegw.Prelude.Assoc.{
  Entries, lookup, insert, delete, str_eq_refl, length-delete, lookup-insert, lookup-delete,
}
use onegw.Pool.{AccountPool, StickyPin, WallSight, Account, flap_trip, flap_park}
use onegw.Pool.Faults.{wall_window, proves, see_wall, wall_strike, flap_strike}
use onegw.Pool.Pins.{max_sticky_pins, make_room, pin}
use onegw.Pool.Pick.{Draws}
use onegw.Pool.Next.{next}

module _ (p : AccountPool) (model acct : String) (text : Bool) (now : ℕ) where
  pub strike-unseen :
      lookup model p.walls ≡ none
      → wall_strike p now model acct text ≡ (see_wall p now model acct, false)
  unfolding wall_strike
  strike-unseen h = ground (arith, h)

  pub strike-proved :
      (prev : WallSight)
      → lookup model p.walls ≡ some prev
      → proves now acct text prev ≡ true
      → wall_strike p now model acct text ≡ (record p { walls = delete model p.walls }, true)
  unfolding wall_strike
  strike-proved prev h e = ground (arith, h, e)

  strike-doubted :
      (prev : WallSight)
      → lookup model p.walls ≡ some prev
      → proves now acct text prev ≡ false
      → wall_strike p now model acct text ≡ (see_wall p now model acct, false)
  unfolding wall_strike
  strike-doubted prev h e = ground (arith, h, e)

  pub lookup-seen :
      lookup model (see_wall p now model acct).walls
      ≡ some (record { wall_acct = acct; seen_at = now })
  unfolding see_wall
  lookup-seen = ground (
    arith,
    lookup-insert model model (record { wall_acct = acct; seen_at = now }) p.walls,
    str_eq_refl model,
  )

lookup-forgotten : (p : AccountPool) (model : String) → lookup model (delete model p.walls) ≡ none
lookup-forgotten p model = ground (arith, lookup-delete model model p.walls, str_eq_refl model)

-- After a first 429 of a model, a second proves a wall just if it comes within the window and, unless
-- its text says so, from another account. A wall that is proved is forgotten: the next 429 of the
-- model proves none.
wall_strike-twice :
    (p : AccountPool) (model a b c : String) (text : Bool) (t u v : ℕ)
    → lookup model p.walls ≡ none
    → ((wall_strike (wall_strike p t model a text).0 u model b text).1
        ≡ (leb (u - t) wall_window && (text || not (str_eq a b))))
      × (((leb (u - t) wall_window && (text || not (str_eq a b)))
            && (wall_strike
                (wall_strike (wall_strike p t model a text).0 u model b text).0
                v
                model
                c
                text).1)
          ≡ false)
unfolding proves
wall_strike-twice p model a b c text t u v h =
    let p1 = see_wall p t model a in
    let seen = lookup-seen p model a text t in
    let sight : WallSight = record { wall_acct = a; seen_at = t } in
    rw (strike-unseen p model a text t h) (elim (Bool-cases (proves u b text sight)) [
      | inl e ↦
          let p2 : AccountPool = record p1 { walls = delete model p1.walls } in
          rw (strike-proved p1 model b text u sight seen e)
            (ground (arith, e, strike-unseen p2 model c text v (lookup-forgotten p1 model)))
      | inr e ↦ rw (strike-doubted p1 model b text u sight seen e) (ground (arith, e))
    ])

length-make_room :
    (now : ℕ) (pins : Entries StickyPin) → length (make_room now pins) < max_sticky_pins
unfolding make_room
length-make_room now pins = ground arith

-- A pin keeps the map of pins within its cap.
pub pin-bounded :
    (p : AccountPool) (id : String) (a : Account) (now : ℕ)
    → length p.sticky ≤ max_sticky_pins
    → length (pin p id a now).sticky ≤ max_sticky_pins
unfolding pin insert
pin-bounded p id a now h =
    ground (arith, h, length-delete id (make_room now p.sticky), length-make_room now p.sticky)

-- The breaker: edge faults at some instants.
unfoldable pub strike_all : List ℕ → AccountPool → AccountPool
strike_all [] p = p
strike_all (t ∷ ts) p = strike_all ts (flap_strike p t)

strike_all-count :
    (ts : List ℕ) (p : AccountPool)
    → ((strike_all ts p).flap_strikes ≡ p.flap_strikes + length ts)
      × ((strike_all ts p).policy ≡ p.policy)
unfolding strike_all flap_strike
strike_all-count [] p = ground arith
strike_all-count (t ∷ ts) p = ground (arith, strike_all-count ts (flap_strike p t))

next-parked :
    (p : AccountPool) (w : Draws) (n : ℕ) (id : String)
    → n < p.flap_open_until
    → next p w n id ≡ (p, none, p.flap_open_until)
unfolding next
next-parked p w n id h = ground (arith, h)

flap_strike-trips :
    (p : AccountPool) (t : ℕ)
    → flap_trip p ≤ suc p.flap_strikes
    → t + flap_park p ≤ (flap_strike p t).flap_open_until
unfolding flap_strike
flap_strike-trips p t h = ground (arith, h)

-- Once as many edge faults in a row as the threshold have struck, the last at some instant, no request
-- is served before the park after it has passed.
flap_strike-parks :
    (p : AccountPool) (w : Draws) (ts : List ℕ) (t n : ℕ) (id : String)
    → flap_trip p ≤ suc (p.flap_strikes + length ts)
    → n < t + flap_park p
    → (next (flap_strike (strike_all ts p) t) w n id).1 ≡ none
unfolding flap_trip flap_park
flap_strike-parks p w ts t n id h k =
    let q = strike_all ts p in
    let (count, same) = strike_all-count ts p in
    let opened = flap_strike-trips q t (rw (count, same) h) in
    rw (next-parked (flap_strike q t) w n id (ground (arith, opened, same, k))) refl
