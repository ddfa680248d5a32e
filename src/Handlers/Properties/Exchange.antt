-- ===== src/Handlers/Properties/Exchange.antt =====
-- One end sends its properties by the case 0x4c of `_v3_process_message`, the other reads them.
use ventmac.Prelude.{
  Bool-cases, inl, inr, ℕ, zero, suc, ◌^◌, ◌<◌, ◌≤◌, ◌≡◌, refl, ap, arith, length, true, List, [],
  ◌∷◌, Option, none, some, take, u8, u16, u32, leb, ◌==◌, if◌then◌else◌, ◌>>=◌,
}
use ventmac.Wire.{Filter}
use ventmac.Roster.{Lists, strdup}
use ventmac.Roster.Tree.Paths.{v3_get_channel_id}
use ventmac.Wire.Filters.{HasNoComma, v3_parse_filter_parts}
use ventmac.Handlers.Properties.{
  Msg0x4c, ServerProp, cleared, Answer, put_0x4c, srv_prop_recv, Settings, reads_value,
}
use ventmac.Handlers.Properties.Process.{receive, process_0x4c}
use ventmac.Handlers.Properties.Fields.{filter_or, filter_text, recv_setting, send_setting}

take_short {ℓ} : {A : Type ℓ} (n : ℕ) (xs : List A) → length xs ≤ n → take n xs ≡ xs
take_short zero [] h = refl
take_short zero (x ∷ xs) h = elim h [ ]
take_short (suc n) [] h = refl
take_short (suc n) (x ∷ xs) h = ap (λ r. x ∷ r) (take_short n xs (omega arith))

-- The fields of a filter fit their widths.
pub record FilterFits (f : Filter) : Type 0 where
  pub action : f.action < 2 ^ 8
  pub interval : f.interval < 2 ^ 16
  pub times : f.times < 2 ^ 8

-- The fields fit their widths, times are numbers that `atoi` can give, and the comment fits its space.
pub record Fits (p : ServerProp) : Type 0 where
  pub chat_filter : p.chat_filter < 2 ^ 8
  pub channel_order : p.channel_order < 2 ^ 8
  pub motd_always : p.motd_always < 2 ^ 8
  pub chat_spam_filter : FilterFits p.chat_spam_filter
  pub comment_spam_filter : FilterFits p.comment_spam_filter
  pub wave_spam_filter : FilterFits p.wave_spam_filter
  pub tts_spam_filter : FilterFits p.tts_spam_filter
  pub inactivity_timeout : p.inactivity_timeout < 2 ^ 31
  pub inactivity_action : p.inactivity_action < 2 ^ 8
  pub rem_srv_comment : p.rem_srv_comment < 2 ^ 8
  pub rem_chan_names : p.rem_chan_names < 2 ^ 8
  pub rem_chan_comments : p.rem_chan_comments < 2 ^ 8
  pub rem_user_names : p.rem_user_names < 2 ^ 8
  pub rem_user_comments : p.rem_user_comments < 2 ^ 8
  pub server_comment : length p.server_comment ≤ 255
  pub server_text : strdup p.server_comment ≡ p.server_comment
  pub wave_bind_filter : p.wave_bind_filter < 2 ^ 8
  pub tts_bind_filter : p.tts_bind_filter < 2 ^ 8
  pub channel_spam_filter : FilterFits p.channel_spam_filter
  pub rem_show_login_names : p.rem_show_login_names < 2 ^ 8
  pub max_guest : p.max_guest < 2 ^ 8
  pub autokick_time : p.autokick_time < 2 ^ 31
  pub autoban_time : p.autoban_time < 2 ^ 31

module _ (atoi : List ℕ → ℕ) (decimal : ℕ → List ℕ) (l : Lists) where
  -- What a server with the properties `p` answers when it is asked for one.
  abbrev pub answer : (path : List ℕ) → ServerProp → (property tid : ℕ) → Msg0x4c
  answer path p property tid = record {
    subtype = 0;
    property = property;
    transaction_id = tid;
    value = some (send_setting decimal (some path) property p).1;
  }

  -- The client handles answers for as long as it asks for one property more.
  pub ask_all :
      ℕ → (path : List ℕ) → ServerProp → Msg0x4c → Settings → Option (Settings × List Answer)
  ask_all zero path p m e = some (e, [])
  ask_all (suc fuel) path p m e = do
    (e1, out) ← process_0x4c atoi decimal l 0 m e
    elim out [
      | put_0x4c subtype property tid value ∷ [] ↦
          ask_all fuel path p (answer path p property tid) e1
      | other ↦ some (e1, other)
    ]

  -- The same over the properties alone.
  settle : ℕ → (path : List ℕ) → ServerProp → (property : ℕ) → ServerProp → Option ServerProp
  settle zero path p property q = none
  settle (suc fuel) path p property q =
      let value =
        if reads_value property then (send_setting decimal (some path) property p).1 else [] in
      let (next, q') = recv_setting atoi l property value q in
      let rest = settle fuel path p next q' in if leb next 0x1c then rest else some q'

  answered :
      (fuel : ℕ) (path : List ℕ) (p : ServerProp) (n : ℕ) (e : Settings) (value : List ℕ)
      → (if reads_value n then some (send_setting decimal (some path) n p).1 else some [])
        ≡ some value
      → ask_all (suc fuel) path p (answer path p n e.tid) e ≡ (
          let (next, q) = recv_setting atoi l n value e.prop in
          if leb next 0x1c
          then ask_all fuel path p (answer path p next e.tid) (record e { prop = q })
          else some (record e { prop = q }, srv_prop_recv q ∷ []))
  unfolding ask_all process_0x4c receive
  answered fuel path p n e value known =
      let same : (e.tid == e.tid) ≡ true = ground arith in
      elim (Bool-cases (leb (recv_setting atoi l n value e.prop).0 0x1c)) [
        | inl more ↦ rw (process_0x4c, same, receive, known, more)
        | inr done ↦ rw (process_0x4c, same, receive, known, done)
      ]

  ask_all-settle :
      (fuel : ℕ) (path : List ℕ) (p : ServerProp) (n : ℕ) (e : Settings) {q : ServerProp}
      → settle fuel path p n e.prop ≡ some q
      → ask_all fuel path p (answer path p n e.tid) e
        ≡ some (record e { prop = q }, srv_prop_recv q ∷ [])
  unfolding settle
  ask_all-settle zero path p n e {q} h = cc
  ask_all-settle (suc fuel) path p n e {q} h =
      let value = if reads_value n then (send_setting decimal (some path) n p).1 else [] in
      let known : (if reads_value n then some (send_setting decimal (some path) n p).1 else some [])
          ≡ some value =
        elim (Bool-cases (reads_value n)) [ inl t ↦ rw t | inr t ↦ rw t ] in
      let next = (recv_setting atoi l n value e.prop).0 in
      let q1 = (recv_setting atoi l n value e.prop).1 in
      elim (Bool-cases (leb next 0x1c)) [
        | inl more ↦
            let rest : settle fuel path p next q1 ≡ some q = rw more at h in
            rw (answered fuel path p n e value known, more)
              (ask_all-settle fuel path p next (record e { prop = q1 }) rest)
        | inr done ↦
            let last : some q1 ≡ some q = rw done at h in
            let same : q1 ≡ q = cc in rw (answered fuel path p n e value known, done, same)
      ]

  module _ (reads : (n : ℕ) → n < 2 ^ 31 → atoi (decimal n) ≡ n)
      (plain : (n : ℕ) → HasNoComma (decimal n)) where
    byte_back : (n : ℕ) → n < 2 ^ 8 → u8 (atoi (decimal n)) ≡ n
    byte_back n h = rw (reads n (omega (arith, h))) (ground (arith, h))

    half_back : (n : ℕ) → n < 2 ^ 16 → u16 (atoi (decimal n)) ≡ n
    half_back n h = rw (reads n (omega (arith, h))) (ground (arith, h))

    word_back : (n : ℕ) → n < 2 ^ 31 → u32 (atoi (decimal n)) ≡ n
    word_back n h = rw (reads n h) (ground (arith, h))

    filter_back : (old f : Filter) → FilterFits f → filter_or atoi old (filter_text decimal f) ≡ f
    filter_back old f h =
        let (parsed, two, one) =
          v3_parse_filter_parts atoi (decimal f.action) (decimal f.interval) (decimal f.times)
            (plain f.action) (plain f.interval) in
        rw (
          filter_or,
          parsed,
          byte_back f.action h.action,
          half_back f.interval h.interval,
          byte_back f.times h.times,
        )

    comment_back :
        (p : ServerProp) → Fits p → take 255 (strdup (take 255 p.server_comment)) ≡ p.server_comment
    comment_back p h = rw (
      take_short 255 p.server_comment h.server_comment,
      h.server_text,
      take_short 255 p.server_comment h.server_comment,
    )

    settle_back :
        (path : List ℕ) (p q : ServerProp)
        → Fits p
        → length path ≤ 255
        → v3_get_channel_id l path ≡ p.inactivity_channel
        → settle 26 path p 0x00 q ≡ some p
    unfolding settle reads_value recv_setting send_setting
    settle_back path p q h fits back = rw (
      byte_back p.chat_filter h.chat_filter,
      byte_back p.channel_order h.channel_order,
      byte_back p.motd_always h.motd_always,
      filter_back cleared.chat_spam_filter p.chat_spam_filter h.chat_spam_filter,
      filter_back cleared.comment_spam_filter p.comment_spam_filter h.comment_spam_filter,
      filter_back cleared.wave_spam_filter p.wave_spam_filter h.wave_spam_filter,
      filter_back cleared.tts_spam_filter p.tts_spam_filter h.tts_spam_filter,
      word_back p.inactivity_timeout h.inactivity_timeout,
      byte_back p.inactivity_action h.inactivity_action,
      take_short 255 path fits,
      back,
      byte_back p.rem_srv_comment h.rem_srv_comment,
      byte_back p.rem_chan_names h.rem_chan_names,
      byte_back p.rem_chan_comments h.rem_chan_comments,
      byte_back p.rem_user_names h.rem_user_names,
      byte_back p.rem_user_comments h.rem_user_comments,
      comment_back p h,
      byte_back p.wave_bind_filter h.wave_bind_filter,
      byte_back p.tts_bind_filter h.tts_bind_filter,
      filter_back cleared.channel_spam_filter p.channel_spam_filter h.channel_spam_filter,
      byte_back p.rem_show_login_names h.rem_show_login_names,
      byte_back p.max_guest h.max_guest,
      word_back p.autokick_time h.autokick_time,
      word_back p.autoban_time h.autoban_time,
    )

    -- When a server answers with its properties as the client's own code writes them, for as long as the
    -- client asks for more, the client has asked for all within 26 answers, and then queues one event
    -- with the properties of the server, which it has stored, whatever it knew before. The properties
    -- fit their fields, with times below 2 ^ 31, the path leads to the channel for inactive users,
    -- and `atoi` reads the numbers below 2 ^ 31 that "%u" writes, which have no comma.
    pub ask_all-process_0x4c :
        (path : List ℕ) (p : ServerProp) (e : Settings)
        → Fits p
        → length path ≤ 255
        → v3_get_channel_id l path ≡ p.inactivity_channel
        → ask_all 26 path p (answer path p 0x00 e.tid) e
          ≡ some (record e { prop = p }, srv_prop_recv p ∷ [])
    ask_all-process_0x4c path p e h fits back =
        ask_all-settle 26 path p 0x00 e (settle_back path p e.prop h fits back)
