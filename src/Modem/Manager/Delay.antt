-- ===== src/Modem/Manager/Delay.antt =====
-- The delay between attempts to initialise a modem.
use abb_app.Base.{
  le-mul-pow, mul-pow-suc, ℕ, zero, suc, ◌+◌, ◌-◌, ◌*◌, ◌^◌, ◌≡◌, inl, inr, min, false, Bool-cases,
  some, ltb, arith,
}
use abb_app.Base.Text.{Text, text_eq, text_eq_refl}
use abb_app.Base.Assoc.{lookup, lookup-insert}
use abb_app.Modem.Manager.{Manager, max_retry_delay, first_delay, fails_of, double_delay, backoff}

double_delay_lem :
    (rounds d : ℕ)
    → min (double_delay rounds d) max_retry_delay ≡ min (d * 2 ^ rounds) max_retry_delay
unfolding double_delay
double_delay_lem zero d = omega arith
double_delay_lem (suc rounds) d = elim (Bool-cases (ltb d max_retry_delay)) [
  | inl small ↦ rw (small, mul-pow-suc) (double_delay_lem rounds (d * 2))
  | inr large ↦ rw large (ground (arith, le-mul-pow d (suc rounds)))
]

-- An init failure that makes n in a row for a modem is followed by a delay of the watch interval, or
-- ten seconds where none is set, doubled n - 1 times and at most five minutes; the next attempt is
-- noted for that long from now, the count n is kept, and the entries of any other modem are as they
-- were.
pub backoff_lem :
    (usb other : Text) (m : Manager)
    → text_eq usb other ≡ false
    → ((backoff usb m).0 ≡ min (first_delay m * 2 ^ fails_of usb m) max_retry_delay)
      × (fails_of usb (backoff usb m).1 ≡ fails_of usb m + 1)
      × (lookup usb (backoff usb m).1.retry_at ≡ some (m.now + (backoff usb m).0))
      × (fails_of other (backoff usb m).1 ≡ fails_of other m)
      × (lookup other (backoff usb m).1.retry_at ≡ lookup other m.retry_at)
unfolding backoff
backoff_lem usb other m apart = (
  rw (plus_minus (fails_of usb m)) (double_delay_lem (fails_of usb m) (first_delay m)),
  rw (lookup-insert, text_eq_refl),
  rw (lookup-insert, text_eq_refl),
  rw (lookup-insert, apart),
  rw (lookup-insert, apart),
)
  where
    plus_minus : (n : ℕ) → n + 1 - 1 ≡ n
    plus_minus n = omega arith
