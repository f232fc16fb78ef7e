-- ===== src/Commands/RoundTrip.antt =====
-- Texts that name a task and a reply, and what app/domain/dsl.py reads in them.
use human_llm_gateway.Prelude.{
  ◌≡◌, refl, ap, ◌∙◌, ◌⊎◌, inl, inr, String, false, some, is_empty, is_blank, rstrip, strip, append,
  rstrip-blank, rstrip-rstrip, Bool-cases,
}
use human_llm_gateway.Prelude.Text.{is_space_code}
use human_llm_gateway.Commands.Syntax.{
  before, after, located, split_marked, split_target, command_of, reply_command, parse_stripped,
  parse_command,
}
use human_llm_gateway.Commands.Strips.{
  has_space, append-nil, rstrip-append, strip_word, before-append, after-append, strip-rstrip,
}

-- `#<id> <body>`
abbrev pub target_text : String → String → String
target_text id body = append "#" (append id (append " " body))

-- `/<name> #<id> <body>`
abbrev pub reply_text : String → String → String → String
reply_text name id body = append "/" (append name (append " " (target_text id body)))

-- A space and the body, without the spaces at the end.
abbrev pub tail : String → String
tail body = rstrip (append " " body)

before-tail : (body : String) → before 32 (tail body) ≡ String.[]
unfolding is_space_code
before-tail body = elim (Bool-cases (is_blank body)) [
  | inl blank ↦ rw blank refl
  | inr more ↦ rw more refl
]

after-tail : (body : String) → after 32 (tail body) ≡ rstrip body
unfolding is_space_code
after-tail body = elim (Bool-cases (is_blank body)) [
  | inl blank ↦ rw (blank, rstrip-blank body blank) refl
  | inr more ↦ rw more refl
]

pub rstrip-tail :
    (id body : String)
    → has_space id ≡ false
    → rstrip (append id (append " " body)) ≡ append id (tail body)
rstrip-tail id body h = rstrip-append id (append " " body) h

pub target_id : (id body : String) → has_space id ≡ false → before 32 (append id (tail body)) ≡ id
target_id id body h =
    before-append id (tail body) h ∙ (ap (append id) (before-tail body) ∙ append-nil id)

pub target_rest :
    (id body : String)
    → has_space id ≡ false
    → strip (after 32 (append id (tail body))) ≡ strip body
target_rest id body h =
    ap strip (after-append id (tail body) h ∙ after-tail body) ∙ strip-rstrip body

located-tail :
    (text id body : String)
    → has_space id ≡ false
    → is_empty id ≡ false
    → located text (append id (tail body)) ≡ (some id, strip body)
located-tail text id body h e =
    rw (target_id id body h, strip_word id h, e, target_rest id body h) refl

-- A target text that was stripped once.
split_target-tail :
    (id body : String)
    → has_space id ≡ false
    → is_empty id ≡ false
    → split_target (append "#" (append id (tail body))) ≡ (some id, strip body)
unfolding split_target is_space_code
split_target-tail id body h e =
    let text = append "#" (append id (tail body)) in
    ap (split_marked text) (
      ap (append "#")
        (rstrip-append id (tail body) h ∙ ap (append id) (rstrip-rstrip (append " " body))))
    ∙ located-tail text id body h e

-- The command behind its name, where the text was stripped.
reply_command-tail :
    (name id body : String)
    → has_space id ≡ false
    → is_empty id ≡ false
    → reply_command name (append " #" (append id (tail body))) ≡ record {
      name = name;
      args = String.[];
      body = strip body;
      target = some id;
      unknown = false;
    }
unfolding reply_command
reply_command-tail name id body h e = rw (split_target-tail id body h e) refl

parsed_reply :
    (id body : String)
    → has_space id ≡ false
    → (parse_command (reply_text "ans" id body)
        ≡ some (reply_command "ans" (append " #" (append id (tail body)))))
      × (parse_command (reply_text "res" id body)
          ≡ some (reply_command "res" (append " #" (append id (tail body)))))
unfolding parse_command command_of is_space_code
parsed_reply id body h = (
  ap parse_stripped (ap (append "/ans #") (rstrip-tail id body h)),
  ap parse_stripped (ap (append "/res #") (rstrip-tail id body h)),
)

-- A text that is made of /ans or /res, # with an ID that is not empty and has no spaces, and a
-- body, is parsed as that command with that target and the stripped body.
pub parse_command-reply_text :
    (name id body : String)
    → (name ≡ "ans") ⊎ (name ≡ "res")
    → has_space id ≡ false
    → is_empty id ≡ false
    → parse_command (reply_text name id body)
      ≡ some (record {
        name = name;
        args = String.[];
        body = strip body;
        target = some id;
        unknown = false;
      })
parse_command-reply_text name id body known h e = elim known [
  | inl ans ↦ rw (ans, (parsed_reply id body h).0, reply_command-tail "ans" id body h e) refl
  | inr res ↦ rw (res, (parsed_reply id body h).1, reply_command-tail "res" id body h e) refl
]
