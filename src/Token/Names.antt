-- ===== src/Token/Names.antt =====
-- scripting/token.go: `tokenNames` and `TokenKind.String`.
use Prim.Native.String.{String}
use sentanyl_core_readonly.Token.{
  TokenKind, tok_eof, tok_illegal, tok_ident, tok_string, tok_int, tok_float, tok_bool,
  tok_duration, tok_lbrace, tok_rbrace, tok_lparen, tok_rparen, tok_lbracket, tok_rbracket,
  tok_comma, tok_dot, tok_colon, tok_equals, tok_bang, tok_lt, tok_gt, tok_lteq, tok_gteq, tok_eqeq,
  tok_neq, tok_amp_amp, tok_pipe_pipe, tok_plus, tok_minus, tok_star, tok_slash, tok_story,
  tok_storyline, tok_enactment, tok_scene, tok_message, tok_template, tok_email, tok_name,
  tok_priority, tok_order, tok_level, tok_allow_interruption, tok_skip_to_next_storyline_on_expiry,
  tok_subject, tok_body, tok_from_email, tok_from_name, tok_reply_to, tok_tags, tok_vars,
  tok_on_begin, tok_on_complete, tok_on_fail, tok_required_badges, tok_must_have, tok_must_not_have,
  tok_give_badge, tok_remove_badge, tok_badge, tok_start_trigger, tok_complete_trigger,
  tok_next_story, tok_next_storyline, tok_next_enactment, tok_advance_to_next_storyline,
  tok_end_story, tok_mark_complete, tok_mark_failed, tok_on, tok_do, tok_when, tok_within,
  tok_click, tok_not_click, tok_open, tok_not_open, tok_sent, tok_webhook, tok_nothing, tok_else,
  tok_bounce, tok_spam, tok_unsubscribe, tok_failure, tok_email_validated, tok_user_has_tag,
  tok_send_immediate, tok_wait, tok_jump_to_enactment, tok_jump_to_storyline, tok_next_scene,
  tok_prev_scene, tok_retry_scene, tok_retry_enactment, tok_loop_to_enactment,
  tok_loop_to_storyline, tok_loop_to_start_enactment, tok_loop_to_start_storyline, tok_up_to,
  tok_times, tok_persist_scope, tok_trigger_priority, tok_conditional_route, tok_route,
  tok_has_badge, tok_not_has_badge, tok_has_tag, tok_not_has_tag, tok_if, tok_else_if, tok_and,
  tok_or, tok_not, tok_for, tok_in, tok_range, tok_while, tok_break, tok_continue, tok_default,
  tok_sender, tok_links, tok_pattern, tok_policy, tok_use, tok_as, tok_scenes, tok_dot_dot,
  tok_dollar_lbrace, tok_data, tok_scene_defaults, tok_enactment_defaults, tok_funnel, tok_stage,
  tok_page, tok_block, tok_form, tok_field, tok_path, tok_domain, tok_ai, tok_context, tok_global,
  tok_extend, tok_length, tok_prompt, tok_submit, tok_abandon, tok_purchase, tok_product_id,
  tok_type, tok_checkout, tok_upsell, tok_lead_capture, tok_required, tok_new, tok_pdf,
  tok_lead_magnet, tok_reference, tok_jump_to_stage, tok_start_story, tok_send_email_action,
  tok_redirect, tok_provide_download, tok_must_have_badge, tok_must_not_have_badge, tok_watch,
  tok_video, tok_autoplay, tok_source_url, tok_percent, tok_product, tok_offer, tok_pricing_model,
  tok_price, tok_currency, tok_includes_product, tok_grants_badge, tok_order_bump,
  tok_one_click_upsell, tok_decline, tok_custom, tok_quiz, tok_question, tok_answer, tok_add_score,
  tok_score, tok_site, tok_seo, tok_navigation, tok_header, tok_footer, tok_theme, tok_title,
  tok_description, tok_module, tok_lesson, tok_video_url, tok_content, tok_draft, tok_instructor,
  tok_lms_duration, tok_is_free, tok_is_draft, tok_drip_days, tok_drip_hours, tok_drip_minutes,
  tok_content_gen, tok_description_gen, tok_pass_threshold, tok_max_attempts, tok_options,
  tok_multiple_choice, tok_short_answer, tok_certificate, tok_course_ref, tok_course,
  tok_duration_kw, tok_audience, tok_outcome, tok_tone, tok_default_media, tok_gen_mode, tok_media,
  tok_player_preset, tok_channel, tok_chapter, tok_turnstile, tok_cta, tok_annotation,
  tok_badge_rule, tok_media_webhook, tok_media_ref, tok_start_sec, tok_end_sec, tok_threshold,
  tok_operator, tok_enabled, tok_progress, tok_complete, tok_play, tok_pause, tok_rewatch,
  tok_poster_url, tok_player_color, tok_context_pack, tok_subject_gen, tok_body_gen, tok_campaign,
  tok_on_click, tok_on_open, tok_true, tok_false, tok_nil,
}

-- The name of a kind; every kind has an entry in `tokenNames`.
unfoldable pub token_name : TokenKind → String
token_name tok_eof = "EOF"
token_name tok_illegal = "ILLEGAL"
token_name tok_ident = "IDENT"
token_name tok_string = "STRING"
token_name tok_int = "INT"
token_name tok_float = "FLOAT"
token_name tok_bool = "BOOL"
token_name tok_duration = "DURATION"
token_name tok_lbrace = "{"
token_name tok_rbrace = "}"
token_name tok_lparen = "("
token_name tok_rparen = ")"
token_name tok_lbracket = "["
token_name tok_rbracket = "]"
token_name tok_comma = ","
token_name tok_dot = "."
token_name tok_colon = ":"
token_name tok_equals = "="
token_name tok_bang = "!"
token_name tok_lt = "<"
token_name tok_gt = ">"
token_name tok_lteq = "<="
token_name tok_gteq = ">="
token_name tok_eqeq = "=="
token_name tok_neq = "!="
token_name tok_amp_amp = "&&"
token_name tok_pipe_pipe = "||"
token_name tok_plus = "+"
token_name tok_minus = "-"
token_name tok_star = "*"
token_name tok_slash = "/"
token_name tok_story = "story"
token_name tok_storyline = "storyline"
token_name tok_enactment = "enactment"
token_name tok_scene = "scene"
token_name tok_message = "message"
token_name tok_template = "template"
token_name tok_email = "email"
token_name tok_name = "name"
token_name tok_priority = "priority"
token_name tok_order = "order"
token_name tok_level = "level"
token_name tok_allow_interruption = "allow_interruption"
token_name tok_skip_to_next_storyline_on_expiry = "skip_to_next_storyline_on_expiry"
token_name tok_subject = "subject"
token_name tok_body = "body"
token_name tok_from_email = "from_email"
token_name tok_from_name = "from_name"
token_name tok_reply_to = "reply_to"
token_name tok_tags = "tags"
token_name tok_vars = "vars"
token_name tok_on_begin = "on_begin"
token_name tok_on_complete = "on_complete"
token_name tok_on_fail = "on_fail"
token_name tok_required_badges = "required_badges"
token_name tok_must_have = "must_have"
token_name tok_must_not_have = "must_not_have"
token_name tok_give_badge = "give_badge"
token_name tok_remove_badge = "remove_badge"
token_name tok_badge = "badge"
token_name tok_start_trigger = "start_trigger"
token_name tok_complete_trigger = "complete_trigger"
token_name tok_next_story = "next_story"
token_name tok_next_storyline = "next_storyline"
token_name tok_next_enactment = "next_enactment"
token_name tok_advance_to_next_storyline = "advance_to_next_storyline"
token_name tok_end_story = "end_story"
token_name tok_mark_complete = "mark_complete"
token_name tok_mark_failed = "mark_failed"
token_name tok_on = "on"
token_name tok_do = "do"
token_name tok_when = "when"
token_name tok_within = "within"
token_name tok_click = "click"
token_name tok_not_click = "not_click"
token_name tok_open = "open"
token_name tok_not_open = "not_open"
token_name tok_sent = "sent"
token_name tok_webhook = "webhook"
token_name tok_nothing = "nothing"
token_name tok_else = "else"
token_name tok_bounce = "bounce"
token_name tok_spam = "spam"
token_name tok_unsubscribe = "unsubscribe"
token_name tok_failure = "failure"
token_name tok_email_validated = "email_validated"
token_name tok_user_has_tag = "user_has_tag"
token_name tok_send_immediate = "send_immediate"
token_name tok_wait = "wait"
token_name tok_jump_to_enactment = "jump_to_enactment"
token_name tok_jump_to_storyline = "jump_to_storyline"
token_name tok_next_scene = "next_scene"
token_name tok_prev_scene = "prev_scene"
token_name tok_retry_scene = "retry_scene"
token_name tok_retry_enactment = "retry_enactment"
token_name tok_loop_to_enactment = "loop_to_enactment"
token_name tok_loop_to_storyline = "loop_to_storyline"
token_name tok_loop_to_start_enactment = "loop_to_start_enactment"
token_name tok_loop_to_start_storyline = "loop_to_start_storyline"
token_name tok_up_to = "up_to"
token_name tok_times = "times"
token_name tok_persist_scope = "persist_scope"
token_name tok_trigger_priority = "trigger_priority"
token_name tok_conditional_route = "conditional_route"
token_name tok_route = "route"
token_name tok_has_badge = "has_badge"
token_name tok_not_has_badge = "not_has_badge"
token_name tok_has_tag = "has_tag"
token_name tok_not_has_tag = "not_has_tag"
token_name tok_if = "if"
token_name tok_else_if = "else_if"
token_name tok_and = "and"
token_name tok_or = "or"
token_name tok_not = "not"
token_name tok_for = "for"
token_name tok_in = "in"
token_name tok_range = "range"
token_name tok_while = "while"
token_name tok_break = "break"
token_name tok_continue = "continue"
token_name tok_default = "default"
token_name tok_sender = "sender"
token_name tok_links = "links"
token_name tok_pattern = "pattern"
token_name tok_policy = "policy"
token_name tok_use = "use"
token_name tok_as = "as"
token_name tok_scenes = "scenes"
token_name tok_dot_dot = ".."
token_name tok_dollar_lbrace = "${"
token_name tok_data = "data"
token_name tok_scene_defaults = "scene_defaults"
token_name tok_enactment_defaults = "enactment_defaults"
token_name tok_funnel = "funnel"
token_name tok_stage = "stage"
token_name tok_page = "page"
token_name tok_block = "block"
token_name tok_form = "form"
token_name tok_field = "field"
token_name tok_path = "path"
token_name tok_domain = "domain"
token_name tok_ai = "ai"
token_name tok_context = "context"
token_name tok_global = "global"
token_name tok_extend = "extend"
token_name tok_length = "length"
token_name tok_prompt = "prompt"
token_name tok_submit = "submit"
token_name tok_abandon = "abandon"
token_name tok_purchase = "purchase"
token_name tok_product_id = "product_id"
token_name tok_type = "type"
token_name tok_checkout = "checkout"
token_name tok_upsell = "upsell"
token_name tok_lead_capture = "lead_capture"
token_name tok_required = "required"
token_name tok_new = "new"
token_name tok_pdf = "pdf"
token_name tok_lead_magnet = "lead_magnet"
token_name tok_reference = "reference"
token_name tok_jump_to_stage = "jump_to_stage"
token_name tok_start_story = "start_story"
token_name tok_send_email_action = "send_email"
token_name tok_redirect = "redirect"
token_name tok_provide_download = "provide_download"
token_name tok_must_have_badge = "must_have_badge"
token_name tok_must_not_have_badge = "must_not_have_badge"
token_name tok_watch = "watch"
token_name tok_video = "video"
token_name tok_autoplay = "autoplay"
token_name tok_source_url = "source_url"
token_name tok_percent = "%"
token_name tok_product = "product"
token_name tok_offer = "offer"
token_name tok_pricing_model = "pricing_model"
token_name tok_price = "price"
token_name tok_currency = "currency"
token_name tok_includes_product = "includes_product"
token_name tok_grants_badge = "grants_badge"
token_name tok_order_bump = "order_bump"
token_name tok_one_click_upsell = "one_click_upsell"
token_name tok_decline = "decline"
token_name tok_custom = "custom"
token_name tok_quiz = "quiz"
token_name tok_question = "question"
token_name tok_answer = "answer"
token_name tok_add_score = "add_score"
token_name tok_score = "score"
token_name tok_site = "site"
token_name tok_seo = "seo"
token_name tok_navigation = "navigation"
token_name tok_header = "header"
token_name tok_footer = "footer"
token_name tok_theme = "theme"
token_name tok_title = "title"
token_name tok_description = "description"
token_name tok_module = "module"
token_name tok_lesson = "lesson"
token_name tok_video_url = "video_url"
token_name tok_content = "content"
token_name tok_draft = "draft"
token_name tok_instructor = "instructor"
token_name tok_lms_duration = "duration"
token_name tok_is_free = "is_free"
token_name tok_is_draft = "is_draft"
token_name tok_drip_days = "drip_days"
token_name tok_drip_hours = "drip_hours"
token_name tok_drip_minutes = "drip_minutes"
token_name tok_content_gen = "content_gen"
token_name tok_description_gen = "description_gen"
token_name tok_pass_threshold = "pass_threshold"
token_name tok_max_attempts = "max_attempts"
token_name tok_options = "options"
token_name tok_multiple_choice = "multiple_choice"
token_name tok_short_answer = "short_answer"
token_name tok_certificate = "certificate"
token_name tok_course_ref = "course_ref"
token_name tok_course = "course"
token_name tok_duration_kw = "duration"
token_name tok_audience = "audience"
token_name tok_outcome = "outcome"
token_name tok_tone = "tone"
token_name tok_default_media = "default_media"
token_name tok_gen_mode = "mode"
token_name tok_media = "media"
token_name tok_player_preset = "player_preset"
token_name tok_channel = "channel"
token_name tok_chapter = "chapter"
token_name tok_turnstile = "turnstile"
token_name tok_cta = "cta"
token_name tok_annotation = "annotation"
token_name tok_badge_rule = "badge_rule"
token_name tok_media_webhook = "media_webhook"
token_name tok_media_ref = "media_ref"
token_name tok_start_sec = "start_sec"
token_name tok_end_sec = "end_sec"
token_name tok_threshold = "threshold"
token_name tok_operator = "operator"
token_name tok_enabled = "enabled"
token_name tok_progress = "progress"
token_name tok_complete = "complete"
token_name tok_play = "play"
token_name tok_pause = "pause"
token_name tok_rewatch = "rewatch"
token_name tok_poster_url = "poster_url"
token_name tok_player_color = "player_color"
token_name tok_context_pack = "context_pack"
token_name tok_subject_gen = "subject_gen"
token_name tok_body_gen = "body_gen"
token_name tok_campaign = "campaign"
token_name tok_on_click = "on_click"
token_name tok_on_open = "on_open"
token_name tok_true = "true"
token_name tok_false = "false"
token_name tok_nil = "nil"
