-- ===== src/Net/Extension/Statics/Order.antt =====
-- src/extensions/networking.rs: the order of the set-up.
use rucoonos.Prelude.{
  ℕ, zero, suc, ◌<◌, ◌≡◌, refl, ap, ◌∙◌, Bool, true, false, List, [], ◌∷◌, map, Option, some, Bytes,
  take, if◌then◌else◌, All,
}
use rucoonos.Net.Handler.State.{Device}
use rucoonos.Hardware.Loop.{Exec, returned, ◌then◌}
use rucoonos.Hardware.Driver.{Card}
use rucoonos.Hardware.Driver.Pending.{IsValid}
use rucoonos.Hardware.Driver.Enqueue.{IsMapped}
use rucoonos.Hardware.Driver.Interrupt.{handle_interrupt-returned}
use rucoonos.Net.Extension.{handle_interrupts}
use rucoonos.Net.Extension.Statics.{
  Statics, init_devices, publish, after, Reads, with_reads, handled, network_interrupt,
}

module _ (memory : ℕ → ℕ → Bytes) (translate_addr : ℕ → Option ℕ) (reads : ℕ → Reads) where
  -- A valid card whose waiting frames are mapped.
  abbrev pub IsReady : Card → Type 0
  IsReady c = IsValid c × All (IsMapped translate_addr) (take 8 c.packet_queue)

  handle_interrupts-returned :
      (n : ℕ) (cs : List Card)
      → All IsReady cs
      → ((i : ℕ) → (reads i).1.0 < 8)
      → (cs' : List Card) × (handle_interrupts memory translate_addr 33 (with_reads reads n cs)
          ≡ returned cs')
        × All IsValid cs'
  unfolding handle_interrupts
  handle_interrupts-returned n [] h lt = ([], refl, tt)
  handle_interrupts-returned n (c ∷ cs) ((v, maps), hs) lt =
      let (cause, (head, tail)) = reads n in
      let (c', r, v', _, _) =
        handle_interrupt-returned memory translate_addr (reads n).0 (reads n).1.0 (reads n).1.1 c v
          (lt n) maps in
      let (cs', rs, vs) = handle_interrupts-returned (suc n) cs hs lt in
      (
        c' ∷ cs',
        ap
              (λ x. x then λ card'.
                handle_interrupts memory translate_addr 33 (with_reads reads (suc n) cs)
                then λ rest. returned (card' ∷ rest))
              r
            ∙ ap (λ x. x then λ rest. returned (c' ∷ rest)) rs,
        (v', vs),
      )

  handled-returned :
      (locked : Bool) (cs : List Card)
      → All IsReady cs
      → ((i : ℕ) → (reads i).1.0 < 8)
      → (devices : Option (List Card)) × (handled memory translate_addr 33 reads locked (some cs)
          ≡ returned devices)
  unfolding handled
  handled-returned true cs h lt = (some cs, refl)
  handled-returned false cs h lt =
      let (cs', r, _) = handle_interrupts-returned 0 cs h lt in
      (some cs', ap (λ x. x then λ cs. returned (some cs)) r)

  with_queue :
      (locked : Bool) (cs : List Card) (s : Statics)
      → All IsReady cs
      → ((i : ℕ) → (reads i).1.0 < 8)
      → s.handle_queue ≡ true
      → s.int_devices ≡ some cs
      → (s' : Statics) × (network_interrupt memory translate_addr 33 reads locked s ≡ returned s')
  unfolding network_interrupt
  with_queue locked cs s h lt queue devices =
      let (ds, r) = handled-returned locked cs h lt in
      (
        record s { int_devices = ds },
        ap (λ b. if b then run else returned s) queue
            ∙ ap
                (λ o. handled memory translate_addr 33 reads locked o then λ devices.
                  returned (record s { int_devices = devices }))
                devices
            ∙ ap (λ x. x then λ devices. returned (record s { int_devices = devices })) r,
      )
    where
      run : Exec Statics
      run = handled memory translate_addr 33 reads locked s.int_devices then λ devices.
          returned (record s { int_devices = devices })

  -- Whichever of its steps the set-up of the network extension has done, an interrupt of valid cards that
  -- come in then ends without a panic, if each head lies inside its ring and the waiting frames are
  -- mapped: before the queue to the handler is there nothing is done, and with the queue the devices are
  -- there too.
  pub network_interrupt-returned :
      (k : ℕ) (locked : Bool) (xs : List (Device × Card))
      → All IsReady (map (λ (x : Device × Card). x.1) xs)
      → ((i : ℕ) → (reads i).1.0 < 8)
      → (s : Statics) × (network_interrupt memory translate_addr 33 reads locked (after k xs)
          ≡ returned s)
  unfolding network_interrupt after publish init_devices
  network_interrupt-returned zero locked xs h lt = (_, refl)
  network_interrupt-returned (suc zero) locked xs h lt = (_, refl)
  network_interrupt-returned (suc (suc zero)) locked xs h lt = (_, refl)
  network_interrupt-returned (suc (suc (suc zero))) locked xs h lt =
      with_queue locked (map (λ (x : Device × Card). x.1) xs) (after (suc (suc (suc zero))) xs) h lt
        refl refl
  network_interrupt-returned (suc (suc (suc (suc zero)))) locked xs h lt =
      with_queue locked (map (λ (x : Device × Card). x.1) xs)
        (after (suc (suc (suc (suc zero)))) xs) h lt refl refl
  network_interrupt-returned (suc (suc (suc (suc (suc zero))))) locked xs h lt =
      with_queue locked (map (λ (x : Device × Card). x.1) xs)
        (after (suc (suc (suc (suc (suc zero))))) xs) h lt refl refl
  network_interrupt-returned (suc (suc (suc (suc (suc (suc k)))))) locked xs h lt =
      with_queue locked (map (λ (x : Device × Card). x.1) xs)
        (after (suc (suc (suc (suc (suc (suc k)))))) xs) h lt refl refl
