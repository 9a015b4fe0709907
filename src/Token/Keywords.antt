-- ===== src/Token/Keywords.antt =====
-- scripting/token.go: the table `keywords` and `LookupIdent`.
use Prim.Native.String.{String}
use sentanyl_core_readonly.Prelude.{
  Str, bytes, str_eq, str_eq_iff, Bool, true, false, List, [], ◌∷◌, if◌then◌else◌, ◌≡◌, refl, ◌&&◌,
  ◌⊎◌, inl, inr, and_iff, Bool-cases, sym, ◌∙◌, arith, not,
}
use sentanyl_core_readonly.Token.Names.{token_name}
use sentanyl_core_readonly.Token.{
  TokenKind, kind_eq, tok_eof, tok_illegal, tok_ident, tok_story, tok_storyline, tok_enactment,
  tok_scene, tok_message, tok_template, tok_email, tok_name, tok_priority, tok_order, tok_level,
  tok_allow_interruption, tok_skip_to_next_storyline_on_expiry, tok_subject, tok_body,
  tok_from_email, tok_from_name, tok_reply_to, tok_tags, tok_vars, tok_on_begin, tok_on_complete,
  tok_on_fail, tok_required_badges, tok_must_have, tok_must_not_have, tok_give_badge,
  tok_remove_badge, tok_badge, tok_start_trigger, tok_complete_trigger, tok_next_story,
  tok_next_storyline, tok_next_enactment, tok_advance_to_next_storyline, tok_end_story,
  tok_mark_complete, tok_mark_failed, tok_on, tok_do, tok_when, tok_within, tok_click,
  tok_not_click, tok_open, tok_not_open, tok_sent, tok_webhook, tok_nothing, tok_else, tok_bounce,
  tok_spam, tok_unsubscribe, tok_failure, tok_email_validated, tok_user_has_tag, tok_send_immediate,
  tok_wait, tok_jump_to_enactment, tok_jump_to_storyline, tok_next_scene, tok_prev_scene,
  tok_retry_scene, tok_retry_enactment, tok_loop_to_enactment, tok_loop_to_storyline,
  tok_loop_to_start_enactment, tok_loop_to_start_storyline, tok_up_to, tok_times, tok_persist_scope,
  tok_trigger_priority, tok_conditional_route, tok_route, tok_has_badge, tok_not_has_badge,
  tok_has_tag, tok_not_has_tag, tok_if, tok_else_if, tok_and, tok_or, tok_not, tok_for, tok_in,
  tok_range, tok_while, tok_break, tok_continue, tok_default, tok_sender, tok_links, tok_pattern,
  tok_policy, tok_use, tok_as, tok_scenes, tok_true, tok_data, tok_scene_defaults,
  tok_enactment_defaults, tok_funnel, tok_stage, tok_page, tok_block, tok_form, tok_field, tok_path,
  tok_domain, tok_ai, tok_context, tok_global, tok_extend, tok_length, tok_prompt, tok_submit,
  tok_abandon, tok_purchase, tok_product_id, tok_type, tok_checkout, tok_upsell, tok_lead_capture,
  tok_required, tok_new, tok_pdf, tok_lead_magnet, tok_reference, tok_jump_to_stage,
  tok_start_story, tok_send_email_action, tok_redirect, tok_provide_download, tok_must_have_badge,
  tok_must_not_have_badge, tok_watch, tok_video, tok_autoplay, tok_source_url, tok_false, tok_nil,
  tok_product, tok_offer, tok_pricing_model, tok_price, tok_currency, tok_includes_product,
  tok_grants_badge, tok_order_bump, tok_one_click_upsell, tok_decline, tok_custom, tok_quiz,
  tok_question, tok_answer, tok_add_score, tok_score, tok_site, tok_seo, tok_navigation, tok_header,
  tok_footer, tok_theme, tok_title, tok_description, tok_module, tok_lesson, tok_video_url,
  tok_content, tok_draft, tok_instructor, tok_duration_kw, tok_is_free, tok_is_draft, tok_drip_days,
  tok_drip_hours, tok_drip_minutes, tok_content_gen, tok_description_gen, tok_pass_threshold,
  tok_max_attempts, tok_options, tok_multiple_choice, tok_short_answer, tok_certificate,
  tok_course_ref, tok_course, tok_audience, tok_outcome, tok_tone, tok_default_media, tok_gen_mode,
  tok_media, tok_player_preset, tok_channel, tok_chapter, tok_turnstile, tok_cta, tok_annotation,
  tok_badge_rule, tok_media_webhook, tok_media_ref, tok_start_sec, tok_end_sec, tok_threshold,
  tok_operator, tok_enabled, tok_progress, tok_complete, tok_play, tok_pause, tok_rewatch,
  tok_poster_url, tok_player_color, tok_context_pack, tok_subject_gen, tok_body_gen, tok_campaign,
  tok_on_click, tok_on_open,
}

abbrev keywords : List (String × TokenKind)
keywords =
    ("story", tok_story)
    ∷ ("storyline", tok_storyline)
    ∷ ("enactment", tok_enactment)
    ∷ ("scene", tok_scene)
    ∷ ("message", tok_message)
    ∷ ("template", tok_template)
    ∷ ("email", tok_email)
    ∷ ("name", tok_name)
    ∷ ("priority", tok_priority)
    ∷ ("order", tok_order)
    ∷ ("level", tok_level)
    ∷ ("allow_interruption", tok_allow_interruption)
    ∷ ("skip_to_next_storyline_on_expiry", tok_skip_to_next_storyline_on_expiry)
    ∷ ("subject", tok_subject)
    ∷ ("body", tok_body)
    ∷ ("from_email", tok_from_email)
    ∷ ("from_name", tok_from_name)
    ∷ ("reply_to", tok_reply_to)
    ∷ ("tags", tok_tags)
    ∷ ("vars", tok_vars)
    ∷ ("on_begin", tok_on_begin)
    ∷ ("on_complete", tok_on_complete)
    ∷ ("on_fail", tok_on_fail)
    ∷ ("required_badges", tok_required_badges)
    ∷ ("must_have", tok_must_have)
    ∷ ("must_not_have", tok_must_not_have)
    ∷ ("give_badge", tok_give_badge)
    ∷ ("remove_badge", tok_remove_badge)
    ∷ ("badge", tok_badge)
    ∷ ("start_trigger", tok_start_trigger)
    ∷ ("complete_trigger", tok_complete_trigger)
    ∷ ("next_story", tok_next_story)
    ∷ ("next_storyline", tok_next_storyline)
    ∷ ("next_enactment", tok_next_enactment)
    ∷ ("advance_to_next_storyline", tok_advance_to_next_storyline)
    ∷ ("end_story", tok_end_story)
    ∷ ("mark_complete", tok_mark_complete)
    ∷ ("mark_failed", tok_mark_failed)
    ∷ ("on", tok_on)
    ∷ ("do", tok_do)
    ∷ ("when", tok_when)
    ∷ ("within", tok_within)
    ∷ ("click", tok_click)
    ∷ ("not_click", tok_not_click)
    ∷ ("open", tok_open)
    ∷ ("not_open", tok_not_open)
    ∷ ("sent", tok_sent)
    ∷ ("webhook", tok_webhook)
    ∷ ("nothing", tok_nothing)
    ∷ ("else", tok_else)
    ∷ ("bounce", tok_bounce)
    ∷ ("spam", tok_spam)
    ∷ ("unsubscribe", tok_unsubscribe)
    ∷ ("failure", tok_failure)
    ∷ ("email_validated", tok_email_validated)
    ∷ ("user_has_tag", tok_user_has_tag)
    ∷ ("send_immediate", tok_send_immediate)
    ∷ ("wait", tok_wait)
    ∷ ("jump_to_enactment", tok_jump_to_enactment)
    ∷ ("jump_to_storyline", tok_jump_to_storyline)
    ∷ ("next_scene", tok_next_scene)
    ∷ ("prev_scene", tok_prev_scene)
    ∷ ("retry_scene", tok_retry_scene)
    ∷ ("retry_enactment", tok_retry_enactment)
    ∷ ("loop_to_enactment", tok_loop_to_enactment)
    ∷ ("loop_to_storyline", tok_loop_to_storyline)
    ∷ ("loop_to_start_enactment", tok_loop_to_start_enactment)
    ∷ ("loop_to_start_storyline", tok_loop_to_start_storyline)
    ∷ ("up_to", tok_up_to)
    ∷ ("times", tok_times)
    ∷ ("persist_scope", tok_persist_scope)
    ∷ ("trigger_priority", tok_trigger_priority)
    ∷ ("conditional_route", tok_conditional_route)
    ∷ ("route", tok_route)
    ∷ ("has_badge", tok_has_badge)
    ∷ ("not_has_badge", tok_not_has_badge)
    ∷ ("has_tag", tok_has_tag)
    ∷ ("not_has_tag", tok_not_has_tag)
    ∷ ("if", tok_if)
    ∷ ("else_if", tok_else_if)
    ∷ ("and", tok_and)
    ∷ ("or", tok_or)
    ∷ ("not", tok_not)
    ∷ ("for", tok_for)
    ∷ ("in", tok_in)
    ∷ ("range", tok_range)
    ∷ ("while", tok_while)
    ∷ ("break", tok_break)
    ∷ ("continue", tok_continue)
    ∷ ("default", tok_default)
    ∷ ("sender", tok_sender)
    ∷ ("links", tok_links)
    ∷ ("pattern", tok_pattern)
    ∷ ("policy", tok_policy)
    ∷ ("use", tok_use)
    ∷ ("as", tok_as)
    ∷ ("scenes", tok_scenes)
    ∷ ("true", tok_true)
    ∷ ("data", tok_data)
    ∷ ("scene_defaults", tok_scene_defaults)
    ∷ ("enactment_defaults", tok_enactment_defaults)
    ∷ ("funnel", tok_funnel)
    ∷ ("stage", tok_stage)
    ∷ ("page", tok_page)
    ∷ ("block", tok_block)
    ∷ ("form", tok_form)
    ∷ ("field", tok_field)
    ∷ ("path", tok_path)
    ∷ ("domain", tok_domain)
    ∷ ("ai", tok_ai)
    ∷ ("context", tok_context)
    ∷ ("global", tok_global)
    ∷ ("extend", tok_extend)
    ∷ ("length", tok_length)
    ∷ ("prompt", tok_prompt)
    ∷ ("submit", tok_submit)
    ∷ ("abandon", tok_abandon)
    ∷ ("purchase", tok_purchase)
    ∷ ("product_id", tok_product_id)
    ∷ ("type", tok_type)
    ∷ ("checkout", tok_checkout)
    ∷ ("upsell", tok_upsell)
    ∷ ("lead_capture", tok_lead_capture)
    ∷ ("required", tok_required)
    ∷ ("new", tok_new)
    ∷ ("pdf", tok_pdf)
    ∷ ("lead_magnet", tok_lead_magnet)
    ∷ ("reference", tok_reference)
    ∷ ("jump_to_stage", tok_jump_to_stage)
    ∷ ("start_story", tok_start_story)
    ∷ ("send_email", tok_send_email_action)
    ∷ ("redirect", tok_redirect)
    ∷ ("provide_download", tok_provide_download)
    ∷ ("must_have_badge", tok_must_have_badge)
    ∷ ("must_not_have_badge", tok_must_not_have_badge)
    ∷ ("watch", tok_watch)
    ∷ ("video", tok_video)
    ∷ ("autoplay", tok_autoplay)
    ∷ ("source_url", tok_source_url)
    ∷ ("false", tok_false)
    ∷ ("nil", tok_nil)
    ∷ ("product", tok_product)
    ∷ ("offer", tok_offer)
    ∷ ("pricing_model", tok_pricing_model)
    ∷ ("price", tok_price)
    ∷ ("currency", tok_currency)
    ∷ ("includes_product", tok_includes_product)
    ∷ ("grants_badge", tok_grants_badge)
    ∷ ("order_bump", tok_order_bump)
    ∷ ("one_click_upsell", tok_one_click_upsell)
    ∷ ("decline", tok_decline)
    ∷ ("custom", tok_custom)
    ∷ ("quiz", tok_quiz)
    ∷ ("question", tok_question)
    ∷ ("answer", tok_answer)
    ∷ ("add_score", tok_add_score)
    ∷ ("score", tok_score)
    ∷ ("site", tok_site)
    ∷ ("seo", tok_seo)
    ∷ ("navigation", tok_navigation)
    ∷ ("header", tok_header)
    ∷ ("footer", tok_footer)
    ∷ ("theme", tok_theme)
    ∷ ("title", tok_title)
    ∷ ("description", tok_description)
    ∷ ("module", tok_module)
    ∷ ("lesson", tok_lesson)
    ∷ ("video_url", tok_video_url)
    ∷ ("content", tok_content)
    ∷ ("draft", tok_draft)
    ∷ ("instructor", tok_instructor)
    ∷ ("duration", tok_duration_kw)
    ∷ ("is_free", tok_is_free)
    ∷ ("is_draft", tok_is_draft)
    ∷ ("drip_days", tok_drip_days)
    ∷ ("drip_hours", tok_drip_hours)
    ∷ ("drip_minutes", tok_drip_minutes)
    ∷ ("content_gen", tok_content_gen)
    ∷ ("description_gen", tok_description_gen)
    ∷ ("pass_threshold", tok_pass_threshold)
    ∷ ("max_attempts", tok_max_attempts)
    ∷ ("options", tok_options)
    ∷ ("multiple_choice", tok_multiple_choice)
    ∷ ("short_answer", tok_short_answer)
    ∷ ("certificate", tok_certificate)
    ∷ ("course_ref", tok_course_ref)
    ∷ ("course", tok_course)
    ∷ ("audience", tok_audience)
    ∷ ("outcome", tok_outcome)
    ∷ ("tone", tok_tone)
    ∷ ("default_media", tok_default_media)
    ∷ ("mode", tok_gen_mode)
    ∷ ("media", tok_media)
    ∷ ("player_preset", tok_player_preset)
    ∷ ("channel", tok_channel)
    ∷ ("chapter", tok_chapter)
    ∷ ("turnstile", tok_turnstile)
    ∷ ("cta", tok_cta)
    ∷ ("annotation", tok_annotation)
    ∷ ("badge_rule", tok_badge_rule)
    ∷ ("media_webhook", tok_media_webhook)
    ∷ ("media_ref", tok_media_ref)
    ∷ ("start_sec", tok_start_sec)
    ∷ ("end_sec", tok_end_sec)
    ∷ ("threshold", tok_threshold)
    ∷ ("operator", tok_operator)
    ∷ ("enabled", tok_enabled)
    ∷ ("progress", tok_progress)
    ∷ ("complete", tok_complete)
    ∷ ("play", tok_play)
    ∷ ("pause", tok_pause)
    ∷ ("rewatch", tok_rewatch)
    ∷ ("poster_url", tok_poster_url)
    ∷ ("player_color", tok_player_color)
    ∷ ("context_pack", tok_context_pack)
    ∷ ("subject_gen", tok_subject_gen)
    ∷ ("body_gen", tok_body_gen)
    ∷ ("campaign", tok_campaign)
    ∷ ("on_click", tok_on_click)
    ∷ ("on_open", tok_on_open)
    ∷ []

lookup_in : List (String × TokenKind) → Str → TokenKind
lookup_in [] ident = tok_ident
lookup_in ((s, k) ∷ rest) ident = if str_eq (bytes s) ident then k else lookup_in rest ident

unfoldable pub lookup_ident : Str → TokenKind
unfolding lookup_in str_eq
lookup_ident = lookup_in keywords

-- Every entry of the table carries the name of its kind.
named : List (String × TokenKind) → Bool
named [] = true
named ((s, k) ∷ rest) = str_eq (bytes s) (bytes (token_name k)) && named rest

keywords-named : named keywords ≡ true
unfolding named str_eq token_name
keywords-named = refl

lookup_in-name :
    (table : List (String × TokenKind)) (ident : Str)
    → named table ≡ true
    → (lookup_in table ident ≡ tok_ident) ⊎ (bytes (token_name (lookup_in table ident)) ≡ ident)
unfolding lookup_in named
lookup_in-name [] ident h = inl refl
lookup_in-name ((s, k) ∷ rest) ident h = elim (Bool-cases (str_eq (bytes s) ident)) [
  | inl hit ↦ rw hit (inr (sym ((str_eq_iff _ _).0 ((and_iff _ _).0 h).0) ∙ (str_eq_iff _ _).0 hit))
  | inr miss ↦ rw miss (lookup_in-name rest ident ((and_iff _ _).0 h).1)
]

-- An identifier that is looked up is a plain identifier, or it is spelled exactly as the name
-- that `tokenNames` gives to the keyword kind found.
pub lookup_ident-name :
    (ident : Str)
    → (lookup_ident ident ≡ tok_ident) ⊎ (bytes (token_name (lookup_ident ident)) ≡ ident)
unfolding lookup_ident
lookup_ident-name ident = lookup_in-name keywords ident keywords-named

-- No keyword is the end of the file or an illegal token.
proper : List (String × TokenKind) → Bool
proper [] = true
proper ((s, k) ∷ rest) = not (kind_eq k tok_eof) && not (kind_eq k tok_illegal) && proper rest

keywords-proper : proper keywords ≡ true
unfolding proper kind_eq
keywords-proper = refl

lookup_in-proper :
    (table : List (String × TokenKind)) (ident : Str)
    → proper table ≡ true
    → (kind_eq (lookup_in table ident) tok_eof ≡ false)
      × (kind_eq (lookup_in table ident) tok_illegal ≡ false)
unfolding lookup_in proper
lookup_in-proper [] ident h = unfold kind_eq in (refl, refl)
lookup_in-proper ((s, k) ∷ rest) ident h = ground (arith, lookup_in-proper rest ident)

-- What `LookupIdent` returns is neither the end of the file nor an illegal token.
pub lookup_ident-proper :
    (ident : Str)
    → (kind_eq (lookup_ident ident) tok_eof ≡ false)
      × (kind_eq (lookup_ident ident) tok_illegal ≡ false)
unfolding lookup_ident
lookup_ident-proper ident = lookup_in-proper keywords ident keywords-proper
