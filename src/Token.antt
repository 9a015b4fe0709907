-- ===== src/Token.antt =====
-- scripting/token.go: source positions, token kinds and tokens.
pub mod Names
pub mod Keywords
use sentanyl_core_readonly.Prelude.{
  ℕ, zero, suc, Bool, Str, ◌==◌, List, [], ◌∷◌, ◌≡◌, refl, ap, sym, ◌∙◌,
}

-- A place in the source: line and column from 1, the byte offset from 0.
pub record Pos : Type 0 where
  pub line : ℕ
  pub col : ℕ
  pub offset : ℕ

pub data TokenKind : Type 0 where
  tok_eof tok_illegal tok_ident tok_string tok_int tok_float tok_bool tok_duration : TokenKind
  tok_lbrace tok_rbrace tok_lparen tok_rparen tok_lbracket tok_rbracket tok_comma : TokenKind
  tok_dot tok_colon tok_equals tok_bang tok_lt tok_gt tok_lteq tok_gteq tok_eqeq : TokenKind
  tok_neq tok_amp_amp tok_pipe_pipe tok_plus tok_minus tok_star tok_slash tok_story : TokenKind
  tok_storyline tok_enactment tok_scene tok_message tok_template tok_email tok_name : TokenKind
  tok_priority tok_order tok_level tok_allow_interruption : TokenKind
  tok_skip_to_next_storyline_on_expiry tok_subject tok_body tok_from_email : TokenKind
  tok_from_name tok_reply_to tok_tags tok_vars tok_on_begin tok_on_complete tok_on_fail : TokenKind
  tok_required_badges tok_must_have tok_must_not_have tok_give_badge tok_remove_badge : TokenKind
  tok_badge tok_start_trigger tok_complete_trigger tok_next_story tok_next_storyline : TokenKind
  tok_next_enactment tok_advance_to_next_storyline tok_end_story tok_mark_complete : TokenKind
  tok_mark_failed tok_on tok_do tok_when tok_within tok_click tok_not_click tok_open : TokenKind
  tok_not_open tok_sent tok_webhook tok_nothing tok_else tok_bounce tok_spam : TokenKind
  tok_unsubscribe tok_failure tok_email_validated tok_user_has_tag tok_send_immediate : TokenKind
  tok_wait tok_jump_to_enactment tok_jump_to_storyline tok_next_scene tok_prev_scene : TokenKind
  tok_retry_scene tok_retry_enactment tok_loop_to_enactment tok_loop_to_storyline : TokenKind
  tok_loop_to_start_enactment tok_loop_to_start_storyline tok_up_to tok_times : TokenKind
  tok_persist_scope tok_trigger_priority tok_conditional_route tok_route tok_has_badge : TokenKind
  tok_not_has_badge tok_has_tag tok_not_has_tag tok_if tok_else_if tok_and tok_or : TokenKind
  tok_not tok_for tok_in tok_range tok_while tok_break tok_continue tok_default : TokenKind
  tok_sender tok_links tok_pattern tok_policy tok_use tok_as tok_scenes tok_dot_dot : TokenKind
  tok_dollar_lbrace tok_data tok_scene_defaults tok_enactment_defaults tok_funnel : TokenKind
  tok_stage tok_page tok_block tok_form tok_field tok_path tok_domain tok_ai : TokenKind
  tok_context tok_global tok_extend tok_length tok_prompt tok_submit tok_abandon : TokenKind
  tok_purchase tok_product_id tok_type tok_checkout tok_upsell tok_lead_capture : TokenKind
  tok_required tok_new tok_pdf tok_lead_magnet tok_reference tok_jump_to_stage : TokenKind
  tok_start_story tok_send_email_action tok_redirect tok_provide_download : TokenKind
  tok_must_have_badge tok_must_not_have_badge tok_watch tok_video tok_autoplay : TokenKind
  tok_source_url tok_percent tok_product tok_offer tok_pricing_model tok_price : TokenKind
  tok_currency tok_includes_product tok_grants_badge tok_order_bump : TokenKind
  tok_one_click_upsell tok_decline tok_custom tok_quiz tok_question tok_answer : TokenKind
  tok_add_score tok_score tok_site tok_seo tok_navigation tok_header tok_footer : TokenKind
  tok_theme tok_title tok_description tok_module tok_lesson tok_video_url tok_content : TokenKind
  tok_draft tok_instructor tok_lms_duration tok_is_free tok_is_draft tok_drip_days : TokenKind
  tok_drip_hours tok_drip_minutes tok_content_gen tok_description_gen : TokenKind
  tok_pass_threshold tok_max_attempts tok_options tok_multiple_choice tok_short_answer : TokenKind
  tok_certificate tok_course_ref tok_course tok_duration_kw tok_audience tok_outcome : TokenKind
  tok_tone tok_default_media tok_gen_mode tok_media tok_player_preset tok_channel : TokenKind
  tok_chapter tok_turnstile tok_cta tok_annotation tok_badge_rule tok_media_webhook : TokenKind
  tok_media_ref tok_start_sec tok_end_sec tok_threshold tok_operator tok_enabled : TokenKind
  tok_progress tok_complete tok_play tok_pause tok_rewatch tok_poster_url : TokenKind
  tok_player_color tok_context_pack tok_subject_gen tok_body_gen tok_campaign : TokenKind
  tok_on_click tok_on_open tok_true tok_false tok_nil : TokenKind

-- The number that `iota` gives the constant, which is what Go compares.
unfoldable pub tag : TokenKind → ℕ
tag tok_eof = 0
tag tok_illegal = 1
tag tok_ident = 2
tag tok_string = 3
tag tok_int = 4
tag tok_float = 5
tag tok_bool = 6
tag tok_duration = 7
tag tok_lbrace = 8
tag tok_rbrace = 9
tag tok_lparen = 10
tag tok_rparen = 11
tag tok_lbracket = 12
tag tok_rbracket = 13
tag tok_comma = 14
tag tok_dot = 15
tag tok_colon = 16
tag tok_equals = 17
tag tok_bang = 18
tag tok_lt = 19
tag tok_gt = 20
tag tok_lteq = 21
tag tok_gteq = 22
tag tok_eqeq = 23
tag tok_neq = 24
tag tok_amp_amp = 25
tag tok_pipe_pipe = 26
tag tok_plus = 27
tag tok_minus = 28
tag tok_star = 29
tag tok_slash = 30
tag tok_story = 31
tag tok_storyline = 32
tag tok_enactment = 33
tag tok_scene = 34
tag tok_message = 35
tag tok_template = 36
tag tok_email = 37
tag tok_name = 38
tag tok_priority = 39
tag tok_order = 40
tag tok_level = 41
tag tok_allow_interruption = 42
tag tok_skip_to_next_storyline_on_expiry = 43
tag tok_subject = 44
tag tok_body = 45
tag tok_from_email = 46
tag tok_from_name = 47
tag tok_reply_to = 48
tag tok_tags = 49
tag tok_vars = 50
tag tok_on_begin = 51
tag tok_on_complete = 52
tag tok_on_fail = 53
tag tok_required_badges = 54
tag tok_must_have = 55
tag tok_must_not_have = 56
tag tok_give_badge = 57
tag tok_remove_badge = 58
tag tok_badge = 59
tag tok_start_trigger = 60
tag tok_complete_trigger = 61
tag tok_next_story = 62
tag tok_next_storyline = 63
tag tok_next_enactment = 64
tag tok_advance_to_next_storyline = 65
tag tok_end_story = 66
tag tok_mark_complete = 67
tag tok_mark_failed = 68
tag tok_on = 69
tag tok_do = 70
tag tok_when = 71
tag tok_within = 72
tag tok_click = 73
tag tok_not_click = 74
tag tok_open = 75
tag tok_not_open = 76
tag tok_sent = 77
tag tok_webhook = 78
tag tok_nothing = 79
tag tok_else = 80
tag tok_bounce = 81
tag tok_spam = 82
tag tok_unsubscribe = 83
tag tok_failure = 84
tag tok_email_validated = 85
tag tok_user_has_tag = 86
tag tok_send_immediate = 87
tag tok_wait = 88
tag tok_jump_to_enactment = 89
tag tok_jump_to_storyline = 90
tag tok_next_scene = 91
tag tok_prev_scene = 92
tag tok_retry_scene = 93
tag tok_retry_enactment = 94
tag tok_loop_to_enactment = 95
tag tok_loop_to_storyline = 96
tag tok_loop_to_start_enactment = 97
tag tok_loop_to_start_storyline = 98
tag tok_up_to = 99
tag tok_times = 100
tag tok_persist_scope = 101
tag tok_trigger_priority = 102
tag tok_conditional_route = 103
tag tok_route = 104
tag tok_has_badge = 105
tag tok_not_has_badge = 106
tag tok_has_tag = 107
tag tok_not_has_tag = 108
tag tok_if = 109
tag tok_else_if = 110
tag tok_and = 111
tag tok_or = 112
tag tok_not = 113
tag tok_for = 114
tag tok_in = 115
tag tok_range = 116
tag tok_while = 117
tag tok_break = 118
tag tok_continue = 119
tag tok_default = 120
tag tok_sender = 121
tag tok_links = 122
tag tok_pattern = 123
tag tok_policy = 124
tag tok_use = 125
tag tok_as = 126
tag tok_scenes = 127
tag tok_dot_dot = 128
tag tok_dollar_lbrace = 129
tag tok_data = 130
tag tok_scene_defaults = 131
tag tok_enactment_defaults = 132
tag tok_funnel = 133
tag tok_stage = 134
tag tok_page = 135
tag tok_block = 136
tag tok_form = 137
tag tok_field = 138
tag tok_path = 139
tag tok_domain = 140
tag tok_ai = 141
tag tok_context = 142
tag tok_global = 143
tag tok_extend = 144
tag tok_length = 145
tag tok_prompt = 146
tag tok_submit = 147
tag tok_abandon = 148
tag tok_purchase = 149
tag tok_product_id = 150
tag tok_type = 151
tag tok_checkout = 152
tag tok_upsell = 153
tag tok_lead_capture = 154
tag tok_required = 155
tag tok_new = 156
tag tok_pdf = 157
tag tok_lead_magnet = 158
tag tok_reference = 159
tag tok_jump_to_stage = 160
tag tok_start_story = 161
tag tok_send_email_action = 162
tag tok_redirect = 163
tag tok_provide_download = 164
tag tok_must_have_badge = 165
tag tok_must_not_have_badge = 166
tag tok_watch = 167
tag tok_video = 168
tag tok_autoplay = 169
tag tok_source_url = 170
tag tok_percent = 171
tag tok_product = 172
tag tok_offer = 173
tag tok_pricing_model = 174
tag tok_price = 175
tag tok_currency = 176
tag tok_includes_product = 177
tag tok_grants_badge = 178
tag tok_order_bump = 179
tag tok_one_click_upsell = 180
tag tok_decline = 181
tag tok_custom = 182
tag tok_quiz = 183
tag tok_question = 184
tag tok_answer = 185
tag tok_add_score = 186
tag tok_score = 187
tag tok_site = 188
tag tok_seo = 189
tag tok_navigation = 190
tag tok_header = 191
tag tok_footer = 192
tag tok_theme = 193
tag tok_title = 194
tag tok_description = 195
tag tok_module = 196
tag tok_lesson = 197
tag tok_video_url = 198
tag tok_content = 199
tag tok_draft = 200
tag tok_instructor = 201
tag tok_lms_duration = 202
tag tok_is_free = 203
tag tok_is_draft = 204
tag tok_drip_days = 205
tag tok_drip_hours = 206
tag tok_drip_minutes = 207
tag tok_content_gen = 208
tag tok_description_gen = 209
tag tok_pass_threshold = 210
tag tok_max_attempts = 211
tag tok_options = 212
tag tok_multiple_choice = 213
tag tok_short_answer = 214
tag tok_certificate = 215
tag tok_course_ref = 216
tag tok_course = 217
tag tok_duration_kw = 218
tag tok_audience = 219
tag tok_outcome = 220
tag tok_tone = 221
tag tok_default_media = 222
tag tok_gen_mode = 223
tag tok_media = 224
tag tok_player_preset = 225
tag tok_channel = 226
tag tok_chapter = 227
tag tok_turnstile = 228
tag tok_cta = 229
tag tok_annotation = 230
tag tok_badge_rule = 231
tag tok_media_webhook = 232
tag tok_media_ref = 233
tag tok_start_sec = 234
tag tok_end_sec = 235
tag tok_threshold = 236
tag tok_operator = 237
tag tok_enabled = 238
tag tok_progress = 239
tag tok_complete = 240
tag tok_play = 241
tag tok_pause = 242
tag tok_rewatch = 243
tag tok_poster_url = 244
tag tok_player_color = 245
tag tok_context_pack = 246
tag tok_subject_gen = 247
tag tok_body_gen = 248
tag tok_campaign = 249
tag tok_on_click = 250
tag tok_on_open = 251
tag tok_true = 252
tag tok_false = 253
tag tok_nil = 254

-- `==` on kinds.
unfoldable pub kind_eq : TokenKind → TokenKind → Bool
unfolding tag
kind_eq a b = tag a == tag b

-- Every kind, at the place of its number.
abbrev kinds : List TokenKind
kinds =
    tok_eof ∷ tok_illegal ∷ tok_ident ∷ tok_string ∷ tok_int ∷ tok_float ∷ tok_bool ∷ tok_duration
    ∷ tok_lbrace ∷ tok_rbrace ∷ tok_lparen ∷ tok_rparen ∷ tok_lbracket ∷ tok_rbracket ∷ tok_comma
    ∷ tok_dot ∷ tok_colon ∷ tok_equals ∷ tok_bang ∷ tok_lt ∷ tok_gt ∷ tok_lteq ∷ tok_gteq ∷ tok_eqeq
    ∷ tok_neq ∷ tok_amp_amp ∷ tok_pipe_pipe ∷ tok_plus ∷ tok_minus ∷ tok_star ∷ tok_slash
    ∷ tok_story ∷ tok_storyline ∷ tok_enactment ∷ tok_scene ∷ tok_message ∷ tok_template ∷ tok_email
    ∷ tok_name ∷ tok_priority ∷ tok_order ∷ tok_level ∷ tok_allow_interruption
    ∷ tok_skip_to_next_storyline_on_expiry ∷ tok_subject ∷ tok_body ∷ tok_from_email ∷ tok_from_name
    ∷ tok_reply_to ∷ tok_tags ∷ tok_vars ∷ tok_on_begin ∷ tok_on_complete ∷ tok_on_fail
    ∷ tok_required_badges ∷ tok_must_have ∷ tok_must_not_have ∷ tok_give_badge ∷ tok_remove_badge
    ∷ tok_badge ∷ tok_start_trigger ∷ tok_complete_trigger ∷ tok_next_story ∷ tok_next_storyline
    ∷ tok_next_enactment ∷ tok_advance_to_next_storyline ∷ tok_end_story ∷ tok_mark_complete
    ∷ tok_mark_failed ∷ tok_on ∷ tok_do ∷ tok_when ∷ tok_within ∷ tok_click ∷ tok_not_click
    ∷ tok_open ∷ tok_not_open ∷ tok_sent ∷ tok_webhook ∷ tok_nothing ∷ tok_else ∷ tok_bounce
    ∷ tok_spam ∷ tok_unsubscribe ∷ tok_failure ∷ tok_email_validated ∷ tok_user_has_tag
    ∷ tok_send_immediate ∷ tok_wait ∷ tok_jump_to_enactment ∷ tok_jump_to_storyline ∷ tok_next_scene
    ∷ tok_prev_scene ∷ tok_retry_scene ∷ tok_retry_enactment ∷ tok_loop_to_enactment
    ∷ tok_loop_to_storyline ∷ tok_loop_to_start_enactment ∷ tok_loop_to_start_storyline ∷ tok_up_to
    ∷ tok_times ∷ tok_persist_scope ∷ tok_trigger_priority ∷ tok_conditional_route ∷ tok_route
    ∷ tok_has_badge ∷ tok_not_has_badge ∷ tok_has_tag ∷ tok_not_has_tag ∷ tok_if ∷ tok_else_if
    ∷ tok_and ∷ tok_or ∷ tok_not ∷ tok_for ∷ tok_in ∷ tok_range ∷ tok_while ∷ tok_break
    ∷ tok_continue ∷ tok_default ∷ tok_sender ∷ tok_links ∷ tok_pattern ∷ tok_policy ∷ tok_use
    ∷ tok_as ∷ tok_scenes ∷ tok_dot_dot ∷ tok_dollar_lbrace ∷ tok_data ∷ tok_scene_defaults
    ∷ tok_enactment_defaults ∷ tok_funnel ∷ tok_stage ∷ tok_page ∷ tok_block ∷ tok_form ∷ tok_field
    ∷ tok_path ∷ tok_domain ∷ tok_ai ∷ tok_context ∷ tok_global ∷ tok_extend ∷ tok_length
    ∷ tok_prompt ∷ tok_submit ∷ tok_abandon ∷ tok_purchase ∷ tok_product_id ∷ tok_type
    ∷ tok_checkout ∷ tok_upsell ∷ tok_lead_capture ∷ tok_required ∷ tok_new ∷ tok_pdf
    ∷ tok_lead_magnet ∷ tok_reference ∷ tok_jump_to_stage ∷ tok_start_story ∷ tok_send_email_action
    ∷ tok_redirect ∷ tok_provide_download ∷ tok_must_have_badge ∷ tok_must_not_have_badge
    ∷ tok_watch ∷ tok_video ∷ tok_autoplay ∷ tok_source_url ∷ tok_percent ∷ tok_product ∷ tok_offer
    ∷ tok_pricing_model ∷ tok_price ∷ tok_currency ∷ tok_includes_product ∷ tok_grants_badge
    ∷ tok_order_bump ∷ tok_one_click_upsell ∷ tok_decline ∷ tok_custom ∷ tok_quiz ∷ tok_question
    ∷ tok_answer ∷ tok_add_score ∷ tok_score ∷ tok_site ∷ tok_seo ∷ tok_navigation ∷ tok_header
    ∷ tok_footer ∷ tok_theme ∷ tok_title ∷ tok_description ∷ tok_module ∷ tok_lesson ∷ tok_video_url
    ∷ tok_content ∷ tok_draft ∷ tok_instructor ∷ tok_lms_duration ∷ tok_is_free ∷ tok_is_draft
    ∷ tok_drip_days ∷ tok_drip_hours ∷ tok_drip_minutes ∷ tok_content_gen ∷ tok_description_gen
    ∷ tok_pass_threshold ∷ tok_max_attempts ∷ tok_options ∷ tok_multiple_choice ∷ tok_short_answer
    ∷ tok_certificate ∷ tok_course_ref ∷ tok_course ∷ tok_duration_kw ∷ tok_audience ∷ tok_outcome
    ∷ tok_tone ∷ tok_default_media ∷ tok_gen_mode ∷ tok_media ∷ tok_player_preset ∷ tok_channel
    ∷ tok_chapter ∷ tok_turnstile ∷ tok_cta ∷ tok_annotation ∷ tok_badge_rule ∷ tok_media_webhook
    ∷ tok_media_ref ∷ tok_start_sec ∷ tok_end_sec ∷ tok_threshold ∷ tok_operator ∷ tok_enabled
    ∷ tok_progress ∷ tok_complete ∷ tok_play ∷ tok_pause ∷ tok_rewatch ∷ tok_poster_url
    ∷ tok_player_color ∷ tok_context_pack ∷ tok_subject_gen ∷ tok_body_gen ∷ tok_campaign
    ∷ tok_on_click ∷ tok_on_open ∷ tok_true ∷ tok_false ∷ tok_nil ∷ []

nth : ℕ → List TokenKind → TokenKind
nth n [] = tok_eof
nth zero (k ∷ ks) = k
nth (suc n) (k ∷ ks) = nth n ks

nth-tag : (k : TokenKind) → nth (tag k) kinds ≡ k
unfolding nth tag
nth-tag tok_eof = refl
nth-tag _ = refl

-- Kinds with the same number are the same kind.
pub tag_injective : (a b : TokenKind) → tag a ≡ tag b → a ≡ b
tag_injective a b e = sym (nth-tag a) ∙ ap (λ n. nth n kinds) e ∙ nth-tag b

pub record Token : Type 0 where
  pub kind : TokenKind
  pub literal : Str
  pub pos : Pos
