-- ===== src/Handlers/Mirror/Session.antt =====
-- The handlers of the connection, and `_v3_logout`, agree with their events.
use ventmac.Prelude.{
  ℕ, u8, not, ◌+◌, ◌≡◌, refl, sym, ap, Bool, true, false, inl, inr, List, [], ◌∷◌, ◌++◌, append-nil,
  Option, none, some, Bool-cases, Option-cases, ltb, ◌==◌, if◌then◌else◌,
}
use ventmac.Crypt.{ventrilo_read_keys}
use ventmac.Handshake.{ventrilo3_algo_scramble}
use ventmac.Wire.Structs.{MsgChannel, MsgRank}
use ventmac.Roster.History.{destroy-nil}
use ventmac.Roster.{
  destroy, strdup, user_id, account_id, v3_destroy_channellist, v3_destroy_userlist,
  v3_destroy_ranklist, v3_destroy_accountlist,
}
use ventmac.Roster.Keyed.{find_entry}
use ventmac.Handlers.{
  error_msg, server_error, Client, Effect, queued, sees_channels, Phrase, admin_auth, skip, post,
}
use ventmac.Handlers.Connection.{
  v3_logout, Msg0x06, bit, read_keys, disabled_text, report_0x06, after_disconnect, process_0x06,
  clear_admin, set_admin, process_0x33, process_0x34, Msg0x50, add_fragment, process_0x50, Msg0x59,
  process_0x59,
}
use ventmac.Handlers.Mirror.{View, see, replay, IsShown, Agrees, After, Mirrors, replay-append}
use ventmac.Handlers.Mirror.Steps.{skip-Mirrors, seq-Mirrors}
use ventmac.Handlers.Mirror.Texts.{AfterMessage, AfterMessage-prefix}

destroy-IsShown {ℓ κ} :
    {A : Type ℓ} (key : A → ℕ) (Shows : ℕ → Option A → Type κ) (xs : List A)
    → ((i : ℕ) → Shows i none)
    → IsShown key Shows (destroy xs)
unfolding find_entry
destroy-IsShown key Shows xs h = rw (destroy-nil xs) (record { distinct = tt; same = h })

pub v3_logout-Mirrors : Mirrors v3_logout
unfolding v3_logout replay v3_destroy_channellist v3_destroy_userlist v3_destroy_ranklist
    v3_destroy_accountlist
v3_logout-Mirrors c v a = elim (Bool-cases c.luser.is_freed) [
  | inl e ↦ rw e tt
  | inr e ↦ rw e (record {
    channels = destroy-IsShown MsgChannel.id _ c.lists.channels (λ i shown. refl);
    users = destroy-IsShown user_id _ c.lists.users (λ i. refl);
    ranks = destroy-IsShown MsgRank.id _ c.lists.ranks (λ i. refl);
    accounts = destroy-IsShown account_id _ c.lists.accounts (λ i. refl);
  })
]

pub process_0x33-Mirrors : (ids : List ℕ) → Mirrors (process_0x33 ids)
unfolding process_0x33 replay
process_0x33-Mirrors ids c v a = elim (Option-cases (set_admin ids (clear_admin c.channel_admin))) [
  | inl x ↦ rw (process_0x33, x) tt
  | inr (admin, x) ↦ rw (process_0x33, x) a
]

pub process_0x34-Mirrors : Mirrors process_0x34
unfolding process_0x34 replay
process_0x34-Mirrors c v a =
    elim (Option-cases (ventrilo3_algo_scramble c.server.client_key c.server.handshake_key)) [
      | inl x ↦ rw (process_0x34, x) tt
      | inr (k, x) ↦
          elim (Option-cases (ventrilo3_algo_scramble c.server.server_key c.server.handshake_key)) [
            | inl y ↦ rw (process_0x34, x, y) tt
            | inr (k', y) ↦ rw (process_0x34, x, y) a
          ]
    ]

read_keys-lists :
    (m : Msg0x06) (c : Client) {done : Bool} {c' : Client}
    → read_keys m c ≡ some (done, c')
    → c'.lists ≡ c.lists
unfolding read_keys
read_keys-lists m c {done} {c'} e = elim (Bool-cases (bit 0x04 m.subtype)) [
  | inr t ↦
      let same : some (true, c) ≡ some (done, c') = rw (read_keys, t) at e in
      let same' : c ≡ c' = cc in rw same'
  | inl t ↦
      elim (Option-cases
        (ventrilo_read_keys c.server.client_key c.server.server_key m.encryption_key m.key_len)) [
          | inl x ↦ let absurd : none ≡ some (done, c') = rw (read_keys, t, x) at e in cc
          | inr ((d, ck, sk), x) ↦
              let same : some
                    (d, record c { server = record c.server { client_key = ck; server_key = sk } })
                  ≡ some (done, c') =
                rw (read_keys, t, x) at e in
              let same' : record c { server = record c.server { client_key = ck; server_key = sk } }
                  ≡ c' =
                cc in
              sym (ap (λ k. k.lists) same')
        ]
]

report_0x06-Mirrors :
    (d : Bool) (texts : List Phrase) (c : Client) (v : View)
    → Agrees c.lists v
    → AfterMessage v (report_0x06 d texts c)
unfolding report_0x06 replay
report_0x06-Mirrors d [] c v a = a
report_0x06-Mirrors d (p ∷ texts) c v a = elim (Bool-cases c.loggedin) [
  | inl e ↦ rw e a
  | inr e ↦ rw e a
]

replay-admin_auth :
    (b : Bool) (out : List Effect) (v : View)
    → replay (out ++ (if b then admin_auth ∷ [] else [])) v ≡ replay out v
unfolding replay
replay-admin_auth true out v = replay-append out (admin_auth ∷ []) v
replay-admin_auth false out v = rw (append-nil out)

after_disconnect-Mirrors :
    (m : Msg0x06) (out : List Effect) (c : Client) (v : View)
    → Agrees c.lists (replay out v)
    → AfterMessage v (after_disconnect m out c)
unfolding after_disconnect
after_disconnect-Mirrors m out c v a = elim (Option-cases (read_keys m c)) [
  | inl x ↦ rw (after_disconnect, x) tt
  | inr ((done, c'), x) ↦
      let admin = bit 0x02 m.subtype in
      let out' = out ++ (if admin then admin_auth ∷ [] else []) in
      let b : Agrees c'.lists (replay out' v) =
        rw (read_keys-lists m c x, replay-admin_auth admin out v) a in
      elim (Bool-cases done) [
        | inr y ↦ rw (after_disconnect, x, y) b
        | inl y ↦ elim (Option-cases (disabled_text m)) [
          | inl z ↦ rw (after_disconnect, x, y, z) tt
          | inr (disabled, z) ↦
              rw (after_disconnect, x, y, z)
                (AfterMessage-prefix _ out' v
                  (report_0x06-Mirrors (bit 0x01 m.subtype) _ c' (replay out' v) b))
        ]
      ]
]

pub process_0x06-Mirrors :
    (m : Msg0x06) (c : Client) (v : View) → Agrees c.lists v → AfterMessage v (process_0x06 m c)
unfolding process_0x06 replay
process_0x06-Mirrors m c v a = elim (Bool-cases (bit 0x01 m.subtype)) [
  | inl e ↦
      let after : After v (v3_logout c) = v3_logout-Mirrors c v a in
      elim (Option-cases (v3_logout c)) [
        | inl x ↦ rw (process_0x06, e, x) tt
        | inr ((c1, out1), x) ↦
            let b : Agrees c1.lists (replay out1 v) = rw x at after in
            rw (process_0x06, e, x) (after_disconnect-Mirrors m out1 c1 v b)
      ]
  | inr e ↦ rw (process_0x06, e) (after_disconnect-Mirrors m [] c v a)
]

pub process_0x50-Mirrors :
    (m : Msg0x50) (c : Client) (v : View) → Agrees c.lists v → AfterMessage v (process_0x50 m c)
unfolding process_0x50 replay
process_0x50-Mirrors m c v a = elim (Bool-cases (ltb m.message_num (m.message_id + 1))) [
  | inl e ↦ rw (process_0x50, e) a
  | inr e ↦
      let guest = m.guest_motd_flag == 1 in
      elim (Option-cases (add_fragment m (if guest then c.server.guest_motd else c.server.motd))) [
        | inl x ↦ rw (process_0x50, e, x) tt
        | inr (text, x) ↦ elim (Bool-cases (m.message_id + 1 == m.message_num)) [
          | inl y ↦ rw (process_0x50, e, x, y) a
          | inr y ↦ rw (process_0x50, e, x, y) a
        ]
      ]
]

logout_if : (b : Bool) → Mirrors (λ c. if b then skip c else v3_logout c)
logout_if true = skip-Mirrors
logout_if false = v3_logout-Mirrors

report_0x59 :
    (e : Effect)
    → ((b : Bool) (v : View) → see (queued b e) v ≡ v)
    → Mirrors (λ c. if c.loggedin then post e c else skip c)
unfolding replay
report_0x59 e quiet c v a = elim (Bool-cases c.loggedin) [
  | inl x ↦ rw (x, quiet (sees_channels c) v) a
  | inr x ↦ rw x a
]

pub process_0x59-Mirrors : (m : Msg0x59) → Mirrors (process_0x59 m)
unfolding process_0x59
process_0x59-Mirrors m c v a = elim (Bool-cases (ltb m.error 51)) [
  | inr e ↦ rw (process_0x59, e) tt
  | inl e ↦
      rw (process_0x59, e)
        (seq-Mirrors _ _
          (report_0x59
            (error_msg (not (u8 m.close_connection == 0))
              (server_error m.error (strdup m.message) m.minutes_banned ∷ []))
            λ b w. refl)
          (logout_if (m.close_connection == 0)) c v a)
]
