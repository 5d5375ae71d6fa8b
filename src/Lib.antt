-- ===== src/Lib.antt =====
-- Ticketmirror keeps the bookings of a tour operator in step with the emails of its sales channels.
-- apps/ingestion/polling.py fetches mail under a lease on the mailbox; apps/ingestion/services.py
-- finds, makes or updates the booking that an email is about, matches its product with an approved
-- alias and asks people, through the review queue, what it cannot settle; apps/bookings/services.py
-- resolves schedules and slots, counts capacity, takes internal bookings and manual edits.
--
-- Base holds the shared names and lemmas: lists, signed integers, orders, sorting, results and
-- dictionaries. Samples holds the data on which the theorems are tried, in the modules Tests.
--
-- Data: the rows of apps/bookings/models.py and apps/ingestion/models.py. A database is one record of
-- tables; a service takes it and returns it changed, or an error, which leaves it as it was since
-- every service runs in a transaction. A booking holds its columns by name, as the services address
-- them; the numbers of dates are ordinals, times are microseconds, and a formatted text is kept as its
-- format and the values put in.
--
-- Bookings, for apps/bookings/services.py:
--   Schedules: resolve_active_schedule, _candidate_slots_for_booking, resolve_schedule_slot_details
--   Capacity: get_slot_bookings, _blocked_pax_for_slot, get_capacity_for_slot_date and the bookings of
--     _unscheduled_booking_row
--   Overrides: apply_manual_override, diff_field_values, provider_update_conflicts,
--     active_updates_from_provider_values
--   Rows: Booking.objects.create under the unique constraint
--   Internal: create_internal_booking
--   Warnings: create_capacity_overbooked_review_item, warn_if_capacity_overbooked
--   Queue: update_or_create on open review items, and closing them
--   Reviews: review_issue_is_obsolete_for_context and its tests
--   Labels, Summary: slot_label, get_daily_capacity_summary with its order, overbooked_capacity_rows
-- Ingestion, for apps/ingestion/services.py:
--   Parsed: ParsedBooking of apps/ingestion/parsers/base.py and _provider_values_from_parsed
--   Providers: _get_or_create_provider and apps/ingestion/providers.py
--   Text, Aliases: _normalize_alias_text and match_product_alias
--   Slots: _slot_for_parsed_time, _alias_values, _apply_alias_slot_values
--   Create, Update: _create_booking, _update_booking
--   Identity: _find_booking_for_parsed, _promote_booking_identity_if_needed
--   Ignored: mark_raw_email_ignored
--   Followup: the reviews that an email opens and closes
--   Upsert: upsert_booking_from_parsed; Process: process_raw_email; Store: store_raw_email and
--     process_gmail_message; Failed: mark_raw_email_failed
-- Gmail, for apps/ingestion/gmail_client.py: Client, list_history and list_recent_messages over the
--   pages that the server gives
-- Polling, for apps/ingestion/polling.py:
--   Lock: _acquire_poll_lock, _release_poll_lock; Exclusion, Recovery: pollers as a step relation
--   Decimal: int and str on history ids; Cycle, Messages, Poll: poll_gmail_once, from the listing over
--     the messages to the row of the mailbox; Pending: process_pending_raw_emails
-- Core, for apps/core/privacy.py: Privacy, the masking of contact texts
-- Commands, for the management commands: Reslot, reslot_bookings of apps/bookings; Stale,
--   resolve_stale_booking_reviews of apps/ingestion
--
-- Loops over lists are recursion on them. The pages of the Gmail history are a finite list, each but the
-- last with a token for the next. The loop of list_recent_messages has as many rounds as its limit,
-- which are enough since every round but the last adds a message. The clock,
-- the case mappings of Unicode, the case-insensitive operators of the database and the similarity of
-- difflib are fields of Ingestion.Environment; whether a user is an admin, and the reference made of
-- the clock, are arguments. A queue is assumed to hold at most one open item for each email, booking
-- and issue (IsQueue), which every operation on it keeps; rows are assumed to have ids of their own.
--
-- The translation, the rules for emails that are no booking, the detection of a provider and the
-- parsers are text processing; what process_raw_email asks of them is the record Process.Reading, over
-- which its theorem is stated.
--
-- Not modelled: the text processing above, and the two regular expressions of the masking, whose
-- substitution is a parameter; the requests of the Gmail client and the decoding of a message, and the
-- Bookeo import, which are input and output; the other management commands; the views, forms, reports
-- and CSV exports, which are rendering. A poll is modelled without other writers of its mailbox row
-- while it runs, which the lease is for, and the ids of digits other than ASCII are left out of int.
-- The lengths of text columns and the ranges of integer columns are left out, with the errors of the
-- database that they cause, and so is the AttributeError of a manual edit of a column that is not there.
pub mod Base
pub mod Data
pub mod Core
pub mod Gmail
pub mod Bookings
pub mod Ingestion
pub mod Polling
pub mod Commands
pub mod Samples
