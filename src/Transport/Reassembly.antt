-- ===== src/Transport/Reassembly.antt =====
-- However the network cuts a message into pieces, `_v3_recv_enc_msg` puts it together again.
use ventmac.Prelude.{
  ℕ, zero, suc, ◌+◌, ◌-◌, ◌/◌, ◌^◌, ◌≤◌, ◌<◌, ◌≡◌, ◌≢◌, sym, ◌∙◌, ap, true, List, [], ◌∷◌, ◌++◌,
  append_assoc, append-nil, Option, none, some, arith, length, length-append, take, drop,
  take_within, drop_within, take-append-drop, ltb, Bool-cases, inl, inr, lt→ltb, u8, u16,
}
use ventmac.Transport.{
  Recv, got, closed, failed, Socket, Received, message, Conn, recv_loop, after_byte, after_body,
  v3_recv_enc_msg, htons, to_len,
}

module _ (net : Socket) where
  after_body-ne-none :
      (c : Conn net) (r : Recv) (k : List ℕ → Option (Received × Conn net))
      → ((x : ℕ) (xs : List ℕ) → k (x ∷ xs) ≢ none)
      → after_body net c r k ≢ none
  unfolding after_body
  after_body-ne-none c (got []) k h = λ e. cc
  after_body-ne-none c (got (x ∷ xs)) k h = h x xs
  after_body-ne-none c closed k h = λ e. cc
  after_body-ne-none c failed k h = λ e. cc

  -- The loop ends within the fuel, whatever `recv` returns: every round that goes on has read a byte.
  pub recv_loop_total :
      (fuel len : ℕ) (buff : List ℕ) (c : Conn net)
      → len ≤ fuel + length buff
      → recv_loop net fuel len buff c ≢ none
  unfolding recv_loop
  recv_loop_total zero len buff c h = ground arith
  recv_loop_total (suc fuel) len buff c h = elim (Bool-cases (ltb (length buff) len)) [
    | inl more ↦ rw more (
        after_body-ne-none _ _ _ (λ x xs.
          recv_loop_total fuel len (buff ++ x ∷ xs) _ (omega (arith, length-append buff (x ∷ xs)))))
    | inr done ↦ rw done (λ e. cc)
  ]

  -- The call returned exactly `xs` and left `rest` on the stream, with the connection as it was.
  pub record Delivers (c : Conn net) (xs rest : List ℕ) (result : Option (Received × Conn net))
      : Type 0 where
    pub after : net.State
    pub returns : result ≡ some (message xs, record c { socket = after })
    pub remains : net.pending after ≡ rest

  -- One `recv` while `xs` and more are pending, and at most `length xs` bytes are asked for.
  record ReadsSome (s : net.State) (n : ℕ) (xs rest : List ℕ) : Type 0 where
    y : ℕ
    ys : List ℕ
    later : List ℕ
    splits : xs ≡ y ∷ (ys ++ later)
    gets : (net.recv s n).0 ≡ got (y ∷ ys)
    leaves : net.pending (net.recv s n).1 ≡ later ++ rest

  ReadsSome-of_law :
      (s : net.State) (n k x : ℕ) (xs rest : List ℕ)
      → net.pending s ≡ (x ∷ xs) ++ rest
      → 0 < k
      → k ≤ suc (length xs)
      → (net.recv s n).0 ≡ got (take k (net.pending s))
      → net.pending (net.recv s n).1 ≡ drop k (net.pending s)
      → ReadsSome s n (x ∷ xs) rest
  ReadsSome-of_law s n zero x xs rest e pos within g l = elim pos [ ]
  ReadsSome-of_law s n (suc k) x xs rest e pos within g l =
      let inside : k ≤ length xs = omega arith in
      record {
        y = x;
        ys = take k xs;
        later = drop k xs;
        splits = ap (λ r. x ∷ r) (sym (take-append-drop k xs));
        gets = g ∙ (rw e (ap (λ r. got (x ∷ r)) (take_within k xs rest inside)));
        leaves = l ∙ (rw e (drop_within k xs rest inside));
      }

  recv-ReadsSome :
      (s : net.State) (n x : ℕ) (xs rest : List ℕ)
      → net.pending s ≡ (x ∷ xs) ++ rest
      → n ≡ suc (length xs)
      → ReadsSome s n (x ∷ xs) rest
  recv-ReadsSome s n x xs rest e h =
      let law = net.recv-pending s n (omega arith) (λ p. cc) in
      ReadsSome-of_law s n law.0 x xs rest e law.1 (omega (arith, law.2)) law.4 law.5

  recv_loop-Delivers :
      (fuel len : ℕ) (buff xs rest : List ℕ) (c : Conn net)
      → net.pending c.socket ≡ xs ++ rest
      → length buff + length xs ≡ len
      → length xs ≤ fuel
      → Delivers c (buff ++ xs) rest (recv_loop net fuel len buff c)
  unfolding recv_loop after_body
  recv_loop-Delivers zero len buff [] rest c p e h = record {
    after = c.socket;
    returns = ground (arith, append-nil buff);
    remains = p;
  }
  recv_loop-Delivers zero len buff (x ∷ xs) rest c p e h = elim h [ ]
  recv_loop-Delivers (suc fuel) len buff [] rest c p e h = record {
    after = c.socket;
    returns = ground (arith, append-nil buff);
    remains = p;
  }
  recv_loop-Delivers (suc fuel) len buff (x ∷ xs) rest c p e h =
      let r = recv-ReadsSome c.socket (len - length buff) x xs rest p (omega arith) in
      let sizes : suc (length xs) ≡ suc (length r.ys + length r.later) =
        ap length r.splits ∙ ap suc (length-append r.ys r.later) in
      let d =
        recv_loop-Delivers fuel len (buff ++ r.y ∷ r.ys) r.later rest
          (record c { socket = (net.recv c.socket (len - length buff)).1 }) r.leaves
          (omega (arith, length-append buff (r.y ∷ r.ys))) (omega arith) in
      let joined : (buff ++ r.y ∷ r.ys) ++ r.later ≡ buff ++ x ∷ xs =
        append_assoc buff (r.y ∷ r.ys) r.later ∙ ap (λ t. buff ++ t) (sym r.splits) in
      record {
        after = d.after;
        returns =
            rw (lt→ltb (length buff) len (omega arith), r.gets)
              (d.returns ∙ ap (λ t. some (message t, record c { socket = d.after })) joined);
        remains = d.remains;
      }

  record ReadsOne (s : net.State) (x : ℕ) (rest : List ℕ) : Type 0 where
    gets : (net.recv s 1).0 ≡ got (x ∷ [])
    leaves : net.pending (net.recv s 1).1 ≡ rest

  ReadsOne-of_law :
      (s : net.State) (k x : ℕ) (rest : List ℕ)
      → net.pending s ≡ x ∷ rest
      → 0 < k
      → k ≤ 1
      → (net.recv s 1).0 ≡ got (take k (net.pending s))
      → net.pending (net.recv s 1).1 ≡ drop k (net.pending s)
      → ReadsOne s x rest
  ReadsOne-of_law s zero x rest e pos within g l = elim pos [ ]
  ReadsOne-of_law s (suc zero) x rest e pos within g l = record {
    gets = g ∙ ap (λ t. got (take 1 t)) e;
    leaves = l ∙ ap (drop 1) e;
  }
  ReadsOne-of_law s (suc (suc k)) x rest e pos within g l = absurd (omega arith)

  recv-ReadsOne :
      (s : net.State) (x : ℕ) (rest : List ℕ) → net.pending s ≡ x ∷ rest → ReadsOne s x rest
  recv-ReadsOne s x rest e =
      let law = net.recv-pending s 1 (omega arith) (λ p. cc) in
      ReadsOne-of_law s law.0 x rest e law.1 law.2 law.4 law.5

  -- For every socket and every way in which it cuts the stream: while the connection is open and
  -- the stream goes on with the two bytes of `htons (length xs)` and then `xs`, a call returns
  -- exactly `xs`, keeps the connection open, and leaves on the stream what follows.
  pub v3_recv_enc_msg-Delivers :
      (c : Conn net) (xs rest : List ℕ)
      → c.connected ≡ true
      → length xs < 2 ^ 16
      → net.pending c.socket ≡ htons (length xs) ++ (xs ++ rest)
      → Delivers c xs rest (v3_recv_enc_msg net c)
  unfolding v3_recv_enc_msg after_byte
  v3_recv_enc_msg-Delivers c xs rest opened small p =
      let high = recv-ReadsOne c.socket _ _ p in
      let low = recv-ReadsOne (net.recv c.socket 1).1 _ _ high.leaves in
      let len : to_len (u8 (u16 (length xs) / 2 ^ 8)) (u8 (length xs)) ≡ length xs = omega arith in
      let d =
        recv_loop-Delivers (length xs) (length xs) [] xs rest
          (record c { socket = (net.recv (net.recv c.socket 1).1 1).1 }) low.leaves (omega arith)
          (omega arith) in
      record {
        after = d.after;
        returns = rw (opened, high.gets, low.gets, len) (rw opened at d.returns);
        remains = d.remains;
      }
