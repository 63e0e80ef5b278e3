-- ===== src/Stomp/Attempts.antt =====
-- How many attempts to connect may fail before the process ends.
use resilient_python_api.Prelude.{
  ℕ, zero, suc, ◌<◌, ◌≤◌, String, true, some, if◌then◌else◌, ◌≡◌, refl, ◌≢◌, arith, ltb, sym, subst,
}
use resilient_python_api.Stomp.{
  connect_failed, Connection, StompClient, Ending, success, failure, exits, raised, connect,
  contains_lower, init,
}

module _ {W : Type 0} (stomp : Connection W) where
  -- The attempt in a world is refused with "no more data".
  abbrev pub IsRefused : W → Type 0
  IsRefused w =
      (text : String) × ((stomp.connect w).0 ≡ some (connect_failed text))
      × (contains_lower "no more data" text ≡ true)

  -- The world after some attempts.
  abbrev pub worlds : ℕ → W → W
  worlds zero w = w
  worlds (suc n) w = (stomp.connect (worlds n w)).1

  -- Attempt after attempt, until one ends the process.
  unfoldable pub attempts : ℕ → StompClient → W → Ending × StompClient × W
  attempts zero self w = (failure, self, w)
  attempts (suc n) self w =
      let (ending, self', w') = attempts n self w in
      elim ending [
        | exits ↦ (exits, self', w')
        | success ↦ connect stomp self' w'
        | failure ↦ connect stomp self' w'
        | raised ↦ connect stomp self' w'
      ]

  -- One refused attempt.
  connect-IsRefused :
      (self : StompClient) (w : W)
      → IsRefused w
      → self.stomp_max_connection_errors ≢ 0
      → let (ending, self', w') = connect stomp self w in
        let errors = suc self.stomp_connection_errors in
        (ending ≡ (if ltb errors self.stomp_max_connection_errors then failure else exits))
        × (self'.stomp_connection_errors ≡ errors)
        × (self'.stomp_max_connection_errors ≡ self.stomp_max_connection_errors)
        × (w' ≡ (stomp.connect w).1)
  unfolding connect
  connect-IsRefused self w (text, e, c) h = ground (arith, e, c, h)

  attempts-IsRefused :
      (n : ℕ) (self : StompClient) (w : W)
      → self.stomp_connection_errors ≡ 0
      → self.stomp_max_connection_errors ≢ 0
      → n ≤ self.stomp_max_connection_errors
      → ((i : ℕ) → i < n → IsRefused (worlds i w))
      → let (ending, self', w') = attempts n self w in
        (ending ≡ (if ltb n self.stomp_max_connection_errors then failure else exits))
        × (self'.stomp_connection_errors ≡ n)
        × (self'.stomp_max_connection_errors ≡ self.stomp_max_connection_errors)
        × (w' ≡ worlds n w)
  unfolding attempts
  attempts-IsRefused zero self w e ne le refused = ground (arith, e, ne)
  attempts-IsRefused (suc n) self w e ne le refused =
      let before =
        attempts-IsRefused n self w e ne (omega arith) (λ i h. refused i (omega arith)) in
      let (ending, self', w') = attempts n self w in
      let r = subst IsRefused (sym before.3) (refused n (omega arith)) in
      let now = connect-IsRefused self' w' r (ground (arith, before, ne)) in
      ground (arith, before, now)

  -- Where there is a limit on connection errors, and every attempt of a component that has none is
  -- refused with "no more data", the attempts before the limit fail and the one at the limit ends the
  -- process.
  pub attempts_end :
      (n : ℕ) (self : StompClient) (w : W)
      → let max_errors = self.stomp_max_connection_errors in
        max_errors ≢ 0
        → n ≤ max_errors
        → ((i : ℕ) → i < n → IsRefused (worlds i w))
        → (attempts n (init max_errors self) w).0 ≡ (if ltb n max_errors then failure else exits)
  unfolding init
  attempts_end n self w ne le refused =
      (attempts-IsRefused n (init self.stomp_max_connection_errors self) w refl ne le refused).0
