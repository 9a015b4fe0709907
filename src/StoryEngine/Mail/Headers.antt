-- ===== src/StoryEngine/Mail/Headers.antt =====
-- routes/story_engine.go: the header of the message that `sendStoryEmail` writes, against a reader
-- of mail: lines that end at CR LF, up to an empty one.
use mathlib.Core.List.{append_assoc}
use mathlib.Core.Path.{subst}
use sentanyl_core_readonly.Prelude.Distinct.{All, All-both}
use sentanyl_core_readonly.Prelude.{
  ℕ, zero, suc, ◌<◌, Bool, true, false, not, ◌&&◌, ◌==◌, ==_iff, if◌then◌else◌, if_rule, Option,
  some, none, List, [], ◌∷◌, ◌++◌, Str, bytes, length, drop, ◌≡◌, ◌≢◌, refl, sym, ◌∙◌, ap, arith,
  has_prefix, is_nil,
}
use sentanyl_core_readonly.StoryEngine.Mail.{
  Headers, crlf, raw_email, remove_byte, sanitize, sender, write_headers, write_reply_to,
}

-- No byte is a line feed or a carriage return.
abbrev pub IsClean : Str → Type 0
IsClean = All (λ (b : ℕ). (b ≢ 13) × (b ≢ 10))

remove_byte-keeps {κ} : (P : ℕ → Type κ) (c : ℕ) (s : Str) → All P s → All P (remove_byte c s)
unfolding remove_byte
remove_byte-keeps P c [] h = tt
remove_byte-keeps P c (x ∷ xs) h =
    let r = remove_byte-keeps P c xs h.1 in if_rule (All P) (x == c) (λ _. r) λ _. (h.0, r)

remove_byte-differs : (c : ℕ) (s : Str) → All (λ x. x ≢ c) (remove_byte c s)
unfolding remove_byte
remove_byte-differs c [] = tt
remove_byte-differs c (x ∷ xs) =
    let r = remove_byte-differs c xs in
    if_rule (All (λ x. x ≢ c)) (x == c) (λ _. r) λ n. (λ e. ground (arith, ==_iff x c), r)

-- What `sanitize` returns has no line feed and no carriage return.
pub sanitize-IsClean : (s : Str) → IsClean (sanitize s)
unfolding sanitize
sanitize-IsClean s =
    let r = remove_byte b'\r' s in
    All-both _ _ (remove_byte b'\n' r) (remove_byte-keeps _ b'\n' r (remove_byte-differs b'\r' s))
      (remove_byte-differs b'\n' r)

-- A string without these bytes is left as it is.
remove_byte-id : (c : ℕ) (s : Str) → All (λ x. x ≢ c) s → remove_byte c s ≡ s
unfolding remove_byte
remove_byte-id c [] h = refl
remove_byte-id c (x ∷ xs) h =
    if_rule (λ (r : Str). r ≡ x ∷ xs) (x == c) (λ e. absurd (h.0 ((==_iff x c).0 e)))
      (λ _. ap (◌∷◌ x) (remove_byte-id c xs h.1))

append-IsClean : (s t : Str) → IsClean s → IsClean t → IsClean (s ++ t)
append-IsClean [] t a b = b
append-IsClean (x ∷ xs) t a b = (a.0, append-IsClean xs t a.1 b)

abbrev cons_line : ℕ → Option (Str × Str) → Option (Str × Str)
cons_line x none = none
cons_line x (some (line, rest)) = some (x ∷ line, rest)

-- The bytes before the first CR LF, and those behind it.
unfoldable pub split_line : Str → Option (Str × Str)
unfolding has_prefix
split_line [] = none
split_line (x ∷ xs) =
    let rest = split_line xs in
    if has_prefix (x ∷ xs) crlf then some ([], drop 1 xs) else cons_line x rest

abbrev cons_header : Str → Option (List Str × Str) → Option (List Str × Str)
cons_header line none = none
cons_header line (some (lines, body)) = some (line ∷ lines, body)

-- An empty line ends the header.
abbrev header_behind :
    (Str → Option (List Str × Str)) → Option (Str × Str) → Option (List Str × Str)
header_behind read none = none
header_behind read (some ([], body)) = some ([], body)
header_behind read (some (x ∷ line, rest)) = cons_header (x ∷ line) (read rest)

-- The lines of the header up to the empty one, and the body.
unfoldable pub read_headers : ℕ → Str → Option (List Str × Str)
unfolding split_line
read_headers zero s = none
read_headers (suc n) s = header_behind (read_headers n) (split_line s)

split_line-clean :
    (line rest : Str) → IsClean line → split_line (line ++ (crlf ++ rest)) ≡ some (line, rest)
unfolding split_line has_prefix
split_line-clean [] rest h = refl
split_line-clean (x ∷ xs) rest h =
    let e : (x == b'\r') ≡ false = ground (arith, ==_iff x b'\r', h.0.0) in
    rw (e, split_line-clean xs rest h.1)

-- The reader finds the lines and the body, with fuel for more than the lines.
abbrev pub Reads : Str → List Str → Str → Type 0
Reads s lines body = (n : ℕ) → length lines < n → read_headers n s ≡ some (lines, body)

Reads-blank : (body : Str) → Reads (crlf ++ body) [] body
unfolding read_headers split_line has_prefix
Reads-blank body zero h = absurd (omega arith)
Reads-blank body (suc n) h = refl

Reads-line :
    (line rest : Str) (lines : List Str) (body : Str)
    → IsClean line
    → is_nil line ≡ false
    → Reads rest lines body
    → Reads (line ++ (crlf ++ rest)) (line ∷ lines) body
unfolding read_headers
Reads-line [] rest lines body c n r k h = absurd (cc)
Reads-line (x ∷ line) rest lines body c n r zero h = absurd (omega arith)
Reads-line (x ∷ line) rest lines body c n r (suc k) h =
    ap (header_behind (read_headers k)) (split_line-clean (x ∷ line) rest c)
    ∙ ap (cons_header (x ∷ line)) (r k (omega arith))

-- A field: its name with the colon, and its value.
Reads-field :
    (name value rest : Str) (lines : List Str) (body : Str)
    → IsClean (name ++ value)
    → is_nil (name ++ value) ≡ false
    → Reads rest lines body
    → Reads ((name ++ (value ++ crlf)) ++ rest) ((name ++ value) ∷ lines) body
Reads-field name value rest lines body c n r =
    let e : (name ++ (value ++ crlf)) ++ rest ≡ (name ++ value) ++ (crlf ++ rest) =
      append_assoc name (value ++ crlf) rest
      ∙ ap (◌++◌ name) (append_assoc value crlf rest)
      ∙ sym (append_assoc name value (crlf ++ rest)) in
    subst (λ s. Reads s ((name ++ value) ∷ lines) body) (sym e)
      (Reads-line (name ++ value) rest lines body c n r)

-- The lines that a map of headers stands for.
abbrev pub extra_lines : Headers → List Str
extra_lines [] = []
extra_lines ((k, v) ∷ rest) = (sanitize k ++ (bytes ": " ++ sanitize v)) ∷ extra_lines rest

abbrev pub reply_lines : Str → List Str
reply_lines [] = []
reply_lines (x ∷ xs) = (bytes "Reply-To: " ++ sanitize (x ∷ xs)) ∷ []

abbrev pub header_lines : Str → Str → Str → Str → Headers → List Str
header_lines from to subject reply_to extra =
    (bytes "From: " ++ sanitize (sender from))
    ∷ (bytes "To: " ++ sanitize to)
    ∷ (reply_lines reply_to
        ++ ((bytes "Subject: " ++ sanitize subject)
            ∷ (extra_lines extra
                ++ (bytes "MIME-Version: 1.0"
                    ∷ bytes "Content-Type: text/html; charset=\"UTF-8\""
                    ∷ []))))

abbrev is_clean : Str → Bool
is_clean [] = true
is_clean (x ∷ xs) = not (x == b'\r') && (not (x == b'\n') && is_clean xs)

is_clean-IsClean : (s : Str) → is_clean s ≡ true → IsClean s
is_clean-IsClean [] h = tt
is_clean-IsClean (x ∷ xs) h = (
  (λ e. ground (arith, ==_iff x b'\r'), λ e. ground (arith, ==_iff x b'\n')),
  is_clean-IsClean xs (ground arith),
)

name-IsClean : (name value : Str) → is_clean name ≡ true → IsClean (name ++ sanitize value)
name-IsClean name value h =
    append-IsClean name (sanitize value) (is_clean-IsClean name h) (sanitize-IsClean value)

is_nil-append : (s : Str) (x : ℕ) (t : Str) → is_nil (s ++ x ∷ t) ≡ false
is_nil-append [] x t = refl
is_nil-append (_ ∷ s) x t = refl

Reads-fixed :
    (line rest : Str) (lines : List Str) (body : Str)
    → is_clean line ≡ true
    → is_nil line ≡ false
    → Reads rest lines body
    → Reads ((line ++ crlf) ++ rest) (line ∷ lines) body
Reads-fixed line rest lines body c n r =
    subst (λ s. Reads s (line ∷ lines) body) (sym (append_assoc line crlf rest))
      (Reads-line line rest lines body (is_clean-IsClean line c) n r)

Reads-extra :
    (extra : Headers) (rest : Str) (lines : List Str) (body : Str)
    → Reads rest lines body
    → Reads (write_headers extra ++ rest) (extra_lines extra ++ lines) body
unfolding write_headers
Reads-extra [] rest lines body r = r
Reads-extra ((k, v) ∷ extra) rest lines body r =
    subst (λ s. Reads s (extra_lines ((k, v) ∷ extra) ++ lines) body)
      (sym (
        append_assoc (sanitize k ++ (bytes ": " ++ (sanitize v ++ crlf))) (write_headers extra)
          rest))
      (Reads-field (sanitize k) (bytes ": " ++ sanitize v) (write_headers extra ++ rest) _ body
        (append-IsClean (sanitize k) _ (sanitize-IsClean k) (name-IsClean (bytes ": ") v refl))
        (is_nil-append (sanitize k) b':' _) (Reads-extra extra rest lines body r))

Reads-reply :
    (reply_to rest : Str) (lines : List Str) (body : Str)
    → Reads rest lines body
    → Reads (write_reply_to reply_to ++ rest) (reply_lines reply_to ++ lines) body
unfolding write_reply_to
Reads-reply [] rest lines body r = r
Reads-reply (x ∷ xs) rest lines body r =
    Reads-field (bytes "Reply-To: ") (sanitize (x ∷ xs)) rest lines body
      (name-IsClean (bytes "Reply-To: ") (x ∷ xs) refl) refl r

-- A reader of mail that splits the header at CR LF finds in the message, whatever bytes the sender,
-- the addressee, the subject and the other headers have, exactly one line for each field, in
-- order, and the body; its fuel is more than the lines.
pub raw_email-header_lines :
    (from to subject html_body reply_to : Str) (extra : Headers)
    → Reads
        (raw_email from to subject html_body reply_to extra)
        (header_lines from to subject reply_to extra)
        html_body
unfolding raw_email
raw_email-header_lines from to subject html_body reply_to extra =
    Reads-field (bytes "From: ") (sanitize (sender from)) _ _ html_body
      (name-IsClean (bytes "From: ") (sender from) refl) refl
      (Reads-field (bytes "To: ") (sanitize to) _ _ html_body (name-IsClean (bytes "To: ") to refl)
        refl
        (Reads-reply reply_to _ _ html_body (
          Reads-field (bytes "Subject: ") (sanitize subject) _ _ html_body
            (name-IsClean (bytes "Subject: ") subject refl) refl
            (Reads-extra extra _ _ html_body (
              Reads-fixed (bytes "MIME-Version: 1.0") _ _ html_body refl refl (
                Reads-fixed (bytes "Content-Type: text/html; charset=\"UTF-8\"") _ _ html_body refl
                  refl (Reads-blank html_body)))))))
