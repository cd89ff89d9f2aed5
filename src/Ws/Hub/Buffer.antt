-- ===== src/Ws/Hub/Buffer.antt =====
-- Messages for a user who is not connected, kept and replayed.
use meno.Prelude.{
  ℕ, zero, suc, ◌-◌, ◌≤◌, ◌≡◌, refl, sym, ap, ◌∙◌, Option, none, List, [], ◌∷◌, ◌++◌, arith,
  unwrap_or, length, take, drop, length-append, length-take, take_all,
}
use mathlib.Core.List.{append_assoc, append-nil}
use meno.Prelude.Maps.{get, get-put}
use meno.Ws.{WsPayload}
use meno.Ws.Hub.{Hub, buffer_message, reversed, drain_message_buffer, send_to_user}

module _ {A : Type 0} where
  take-append_take :
      (n m : ℕ) (xs ys : List A) → n ≤ m → take n (xs ++ take m ys) ≡ take n (xs ++ ys)
  take-append_take zero m xs ys h = refl
  take-append_take (suc n) m (x ∷ xs) ys h =
      ap (λ zs. x ∷ zs) (take-append_take n m xs ys (omega arith))
  take-append_take (suc n) zero [] ys h = absurd (omega arith)
  take-append_take (suc n) (suc m) [] [] h = refl
  take-append_take (suc n) (suc m) [] (y ∷ ys) h =
      ap (λ zs. y ∷ zs) (take-append_take n m [] ys (omega arith))

  length-reversed : (xs : List A) → length (reversed xs) ≡ length xs
  unfolding reversed
  length-reversed [] = refl
  length-reversed (x ∷ xs) = omega (arith, length-append (reversed xs) (x ∷ []), length-reversed xs)

  reversed-append : (xs : List A) (y : A) → reversed (xs ++ y ∷ []) ≡ y ∷ reversed xs
  unfolding reversed
  reversed-append [] y = refl
  reversed-append (x ∷ xs) y = ap (λ zs. zs ++ x ∷ []) (reversed-append xs y)

  reversed_twice : (xs : List A) → reversed (reversed xs) ≡ xs
  unfolding reversed
  reversed_twice [] = refl
  reversed_twice (x ∷ xs) = reversed-append (reversed xs) x ∙ ap (λ zs. x ∷ zs) (reversed_twice xs)

  drop_all : (xs : List A) → drop (length xs) xs ≡ []
  drop_all [] = refl
  drop_all (x ∷ xs) = drop_all xs

  drop-append : (k : ℕ) (xs ys : List A) → k ≤ length xs → drop k (xs ++ ys) ≡ drop k xs ++ ys
  drop-append zero xs ys h = refl
  drop-append (suc k) [] ys h = absurd (omega arith)
  drop-append (suc k) (x ∷ xs) ys h = drop-append k xs ys (omega arith)

  reversed-take : (n : ℕ) (xs : List A) → reversed (take n xs) ≡ drop (length xs - n) (reversed xs)
  unfolding reversed
  reversed-take zero xs =
      let all : length xs - 0 ≡ length (reversed xs) = omega (arith, length-reversed xs) in
      sym (ap (λ k. drop k (reversed xs)) all ∙ drop_all (reversed xs))
  reversed-take (suc n) [] = let none_left : 0 - suc n ≡ 0 = omega arith in rw none_left refl
  reversed-take (suc n) (x ∷ xs) =
      let less : suc (length xs) - suc n ≡ length xs - n = omega arith in
      rw less (
        ap (λ zs. zs ++ x ∷ []) (reversed-take n xs)
        ∙ sym (
            drop-append (length xs - n) (reversed xs) (x ∷ []) (omega (arith, length-reversed xs))))

-- Messages sent to a user one after the other.
unfoldable pub send_each : ℕ → List WsPayload → Hub → Hub
unfolding send_to_user
send_each u [] h = h
send_each u (p ∷ ps) h = send_each u ps (send_to_user u p h)

kept : ℕ → Hub → List WsPayload
unfolding get
kept u h = unwrap_or (get u h.buffers) []

module _ (u : ℕ) where
  away :
      (p : WsPayload) (h : Hub) → get u h.clients ≡ none → send_to_user u p h ≡ buffer_message u p h
  unfolding send_to_user
  away p h e = rw (e, send_to_user) refl

  same_clients : (p : WsPayload) (h : Hub) → get u (buffer_message u p h).clients ≡ get u h.clients
  unfolding buffer_message
  same_clients p h = refl

  buffered : (p : WsPayload) (h : Hub) → kept u (buffer_message u p h) ≡ take 51 (p ∷ kept u h)
  unfolding kept buffer_message
  buffered p h =
      ap (λ (o : Option (List WsPayload)). unwrap_or o [])
        (get-put u u (take 51 (p ∷ unwrap_or (get u h.buffers) [])) h.buffers)
      ∙ ground arith

  all_kept :
      (ps : List WsPayload) (h : Hub)
      → get u h.clients ≡ none
      → length (kept u h) ≤ 51
      → kept u (send_each u ps h) ≡ take 51 (reversed ps ++ kept u h)
  unfolding send_each reversed
  all_kept [] h e short = sym (take_all 51 (kept u h) short)
  all_kept (p ∷ ps) h e short =
      let h1 = send_to_user u p h in
      let now : kept u h1 ≡ take 51 (p ∷ kept u h) = ap (kept u) (away p h e) ∙ buffered p h in
      let still : get u h1.clients ≡ none =
        ap (λ (g : Hub). get u g.clients) (away p h e) ∙ same_clients p h ∙ e in
      all_kept ps h1 still (rw now (omega (arith, length-take 51 (p ∷ kept u h))))
      ∙ rw now (
          take-append_take 51 51 (reversed ps) (p ∷ kept u h) (omega arith)
          ∙ ap (take 51) (sym (append_assoc (reversed ps) (p ∷ []) (kept u h))))

  -- Messages are sent to a user who has no connection and nothing kept. When the buffer is drained, the
  -- last 51 of them come out, in the order in which they were sent.
  pub replay :
      (ps : List WsPayload) (h : Hub)
      → get u h.clients ≡ none
      → get u h.buffers ≡ none
      → (drain_message_buffer u (send_each u ps h)).0 ≡ drop (length ps - 51) ps
  unfolding drain_message_buffer kept
  replay ps h e n =
      let nothing : kept u h ≡ [] = ap (λ (o : Option (List WsPayload)). unwrap_or o []) n in
      let short : length (kept u h) ≤ 51 = rw nothing (omega arith) in
      let all : kept u (send_each u ps h) ≡ take 51 (reversed ps) =
        all_kept ps h e short
        ∙ ap (λ zs. take 51 (reversed ps ++ zs)) nothing
        ∙ ap (take 51) (append-nil (reversed ps)) in
      ap reversed all
      ∙ reversed-take 51 (reversed ps)
      ∙ rw (length-reversed ps) (ap (drop (length ps - 51)) (reversed_twice ps))
