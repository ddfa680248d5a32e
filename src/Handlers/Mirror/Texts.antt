-- ===== src/Handlers/Mirror/Texts.antt =====
-- The handlers of texts agree with their events.
use ventmac.Prelude.{
  ℕ, false, [], ◌∷◌, refl, inl, inr, List, ◌++◌, Option, none, some, Bool-cases, Option-cases, ◌==◌,
  ◌>>=◌, arith,
}
use ventmac.Handlers.{
  Client, chat_join, chat_leave, chat_message, error_msg, no_chat_access, v3_get_user_id, Effect,
  Act,
}
use ventmac.Handlers.Chat.{chat_text, Msg0x42, process_0x42, Msg0x5a, process_0x5a, process_0x62}
use ventmac.Handlers.Connection.{Code, process_0x5c}
use ventmac.Handlers.Dispatch.{return}
use ventmac.Handlers.Mirror.{View, replay, Agrees, After, Mirrors, replay-append}
use ventmac.Handlers.Mirror.Steps.{skip-Mirrors, post-Mirrors}
use ventmac.Handlers.Mirror.Cases.{if-Mirrors}

abbrev pub AfterMessage : View → Option (Code × Client × List Effect) → Type 0
AfterMessage v none = Unit
AfterMessage v (some (code, c', out)) = Agrees c'.lists (replay out v)

pub return-AfterMessage :
    (code : Code) (f : Act)
    → Mirrors f
    → (c : Client) (v : View) → Agrees c.lists v
    → AfterMessage v (return code f c)
return-AfterMessage code f hf c v a = elim (Option-cases (f c)) [
  | inl x ↦ rw x tt
  | inr ((c', out), x) ↦
      let h : After v (f c) = hf c v a in
      let agrees : Agrees c'.lists (replay out v) = rw x at h in rw x agrees
]

pub AfterMessage-prefix :
    (o : Option (Code × Client × List Effect)) (out : List Effect) (v : View)
    → AfterMessage (replay out v) o
    → AfterMessage v (do (code, c', more) ← o; some (code, c', out ++ more))
AfterMessage-prefix none out v h = tt
AfterMessage-prefix (some (code, c', more)) out v h = rw (replay-append out more v) h

pub process_0x42-Mirrors : (m : Msg0x42) → Mirrors (process_0x42 m)
unfolding process_0x42
process_0x42-Mirrors m =
    if-Mirrors (m.subtype == 0) _ _ (post-Mirrors (chat_join m.user_id) λ b v. refl) (
      if-Mirrors (m.subtype == 1) _ _ (post-Mirrors (chat_leave m.user_id) λ b v. refl) (
        if-Mirrors (m.subtype == 2) _ _
          (post-Mirrors (chat_message m.user_id (chat_text m.msg)) λ b v. refl)
          (if-Mirrors (m.subtype == 3) _ _
            (post-Mirrors (chat_message 0 (chat_text m.msg)) λ b v. refl)
            (if-Mirrors (m.subtype == 4) _ _
              (post-Mirrors (error_msg false (no_chat_access ∷ [])) λ b v. refl) skip-Mirrors))))

pub process_0x5a-Mirrors : (m : Msg0x5a) → Mirrors (process_0x5a m)
unfolding process_0x5a replay
process_0x5a-Mirrors m c v a = ground arith

pub process_0x62-Mirrors : (to from : ℕ) → Mirrors (process_0x62 to from)
unfolding process_0x62 replay
process_0x62-Mirrors to from c v a = elim (Bool-cases (to == v3_get_user_id c)) [
  | inl e ↦ rw (process_0x62, e) a
  | inr e ↦ rw (process_0x62, e) a
]

pub process_0x5c-Mirrors : (subtype : ℕ) → Mirrors (process_0x5c subtype)
unfolding process_0x5c replay
process_0x5c-Mirrors subtype c v a = elim (Bool-cases c.loggedin) [
  | inl e ↦ rw (process_0x5c, e) a
  | inr e ↦ rw (process_0x5c, e) a
]
