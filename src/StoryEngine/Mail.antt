-- ===== src/StoryEngine/Mail.antt =====
-- routes/story_engine.go: `sanitize`, `sendStoryEmail`, `injectOpenPixel`, `storyReplyHeaders`, and
-- routes/tracking.go: `RewriteLinksForTracking`.
pub mod Headers
pub mod Pixel
use sentanyl_core_readonly.Prelude.{
  ℕ, suc, Bool, ◌&&◌, ◌||◌, ◌==◌, if◌then◌else◌, Option, some, none, List, [], ◌∷◌, ◌++◌, Str,
  bytes, take, drop, has_prefix, is_nil,
}

-- `strings.ReplaceAll(s, c, "")` for a single byte `c`.
unfoldable pub remove_byte : ℕ → Str → Str
remove_byte c [] = []
remove_byte c (x ∷ xs) = let rest = remove_byte c xs in if x == c then rest else x ∷ rest

unfoldable pub sanitize : Str → Str
unfolding remove_byte
sanitize s = remove_byte b'\n' (remove_byte b'\r' s)

abbrev pub crlf : Str
crlf = b'\r' ∷ b'\n' ∷ []

abbrev pub Headers : Type 0
Headers = List (Str × Str)

-- `for k, v := range extraHeaders`, in the order that the map is read.
unfoldable pub write_headers : Headers → Str
write_headers [] = []
write_headers ((k, v) ∷ rest) =
    (sanitize k ++ (bytes ": " ++ (sanitize v ++ crlf))) ++ write_headers rest

unfoldable pub write_reply_to : Str → Str
write_reply_to reply_to =
    if is_nil reply_to then [] else bytes "Reply-To: " ++ (sanitize reply_to ++ crlf)

-- `if from == "" { from = "noreply@sentanyl.local" }`.
unfoldable pub sender : Str → Str
sender from = if is_nil from then bytes "noreply@sentanyl.local" else from

-- The bytes that `sendStoryEmail` hands to the provider.
unfoldable pub raw_email : Str → Str → Str → Str → Str → Headers → Str
raw_email from to subject html_body reply_to extra_headers =
    (bytes "From: " ++ (sanitize (sender from) ++ crlf))
    ++ ((bytes "To: " ++ (sanitize to ++ crlf))
        ++ (write_reply_to reply_to
            ++ ((bytes "Subject: " ++ (sanitize subject ++ crlf))
                ++ (write_headers extra_headers
                    ++ ((bytes "MIME-Version: 1.0" ++ crlf)
                        ++ ((bytes "Content-Type: text/html; charset=\"UTF-8\"" ++ crlf)
                            ++ (crlf ++ html_body)))))))

-- `strings.LastIndex(s, pattern)`.
unfoldable pub last_index : Str → Str → Option ℕ
unfolding has_prefix
last_index [] pattern = if has_prefix [] pattern then some 0 else none
last_index (c ∷ cs) pattern = elim (last_index cs pattern) [
  | some i ↦ some (suc i)
  | none ↦ if has_prefix (c ∷ cs) pattern then some 0 else none
]

-- `strings.TrimRight(s, "/")`.
unfoldable pub trim_slashes : Str → Str
trim_slashes [] = []
trim_slashes (c ∷ cs) =
    let rest = trim_slashes cs in if c == b'/' && is_nil rest then [] else c ∷ rest

unfoldable pub open_pixel : Str → Str → Str
unfolding trim_slashes
open_pixel base_url send_public_id =
    bytes "<img src=\""
    ++ (trim_slashes base_url
        ++ (bytes "/api/marketing/track/open?e="
            ++ (send_public_id
                ++ bytes "\" width=\"1\" height=\"1\" style=\"display:none\" alt=\"\"/>")))

unfoldable pub inject_open_pixel : Str → Str → Str → Str
unfolding last_index open_pixel
inject_open_pixel html base_url send_public_id =
    let pixel = open_pixel base_url send_public_id in
    if is_nil send_public_id then html else elim (last_index html (bytes "</body>")) [
      | some i ↦ take i html ++ (pixel ++ drop i html)
      | none ↦ html ++ pixel
    ]

-- The headers of the unsubscribe link, with the message id where there is one; and the address for
-- replies, where the scene's own wins.
unfoldable pub reply_address : Str → Str → Str
reply_address scene_reply_to verp_reply_to =
    if is_nil scene_reply_to then verp_reply_to else scene_reply_to

unfoldable pub reply_headers : Str → Headers → Headers
reply_headers message_id headers =
    if is_nil message_id then headers else headers ++ (bytes "Message-ID", message_id) ∷ []

-- `mailto:` links and fragments are not tracked.
unfoldable pub is_untracked : Str → Bool
unfolding has_prefix
is_untracked url = has_prefix url (bytes "mailto:") || has_prefix url (bytes "#")

-- What stands for one match of the regular expression, whose groups are the parts, given the token
-- that encodes the URL.
unfoldable pub rewrite_match : (Str → Str) → Str → Str → Str → Str → Str
unfolding is_untracked trim_slashes
rewrite_match token base_url before url after =
    let link = trim_slashes base_url ++ (bytes "/api/v1/tracking/click/" ++ token url) in
    if is_untracked url || is_nil (token url)
    then before ++ (url ++ after)
    else before ++ (link ++ after)

-- `hrefRegex.ReplaceAllStringFunc(html, …)` is a parameter: it replaces each match, given by its
-- three groups.
unfoldable pub rewrite_links :
    ((Str → Str → Str → Str) → Str → Str) → (Str → Str) → Str → Str → Str → Str
unfolding rewrite_match
rewrite_links replace_all token html user_public_id base_url =
    if is_nil base_url || is_nil user_public_id
    then html
    else replace_all (rewrite_match token base_url) html
