-- ===== src/CharDevice/Load.antt =====
-- char.c, loading and unloading, and opening.
use lkms.Prelude.{ℕ, ◌≡◌, ◌≢◌, refl, Bool, true, false, ◌∷◌, arith, pos, ==_of_ne}
use lkms.Kernel.Run.{blocked, Ends, ends}
use lkms.Kernel.Fifo.{Kfifo}
use lkms.Kernel.Semaphore.{Semaphores}
use lkms.CharDevice.{Device, grant, unregister, init, cleanup, char_open, char_close}
use lkms.CharDevice.Write.{enter-free, enter-interrupted, enter-blocked}

module _ (f : Kfifo) (σ : Semaphores) where
  open σ use {count, up, count-up, count-init}

  -- Unloading gives up the number in `major_number`, which loading does not set: the number that
  -- loading was given stays registered.
  pub cleanup-init :
      (m : ℕ) (d : Device f σ)
      → d.major_number ≢ m
      → (cleanup f σ (init f σ true (pos m) d).1).registered
        ≡ m ∷ unregister d.major_number d.registered
  unfolding cleanup init grant unregister
  cleanup-init m d ne = rw (==_of_ne d.major_number m ne)

  -- The device is open in one place at a time: opening it when it is free leaves it taken, and
  -- opening it again then waits; closing it makes it free.
  pub char_open-exclusive :
      (signal : Bool) (d : Device f σ)
      → count d.sem ≡ 1
      → Ends
          (λ (r, d1).
            (r ≡ pos 0)
            × (char_open f σ false d1 ≡ blocked)
            × (count (char_close f σ d1).1.sem ≡ 1))
          (char_open f σ signal d)
  unfolding char_open char_close
  char_open-exclusive signal d one =
      let (t, run, less) = enter-free f σ signal d.sem (omega arith) in
      rw (char_open, run)
        (ends (refl, rw (char_open, enter-blocked f σ t (omega arith)), omega (arith, count-up t)))

  -- An open whose wait is broken off by a signal returns 0 all the same, and closing that one frees
  -- the device while it is still open elsewhere.
  pub char_open-interrupted :
      (d : Device f σ)
      → count d.sem ≡ 0
      → Ends (λ (r, d1). (r ≡ pos 0) × (count (char_close f σ d1).1.sem ≡ 1)) (char_open f σ true d)
  unfolding char_open char_close
  char_open-interrupted d held =
      rw (char_open, enter-interrupted f σ d.sem held) (ends (refl, omega (arith, count-up d.sem)))
