-- ===== src/History/Sequences.antt =====
-- The sequence numbers of every stream over any number of calls.
use wake_surfer.Common.{
  ℕ, suc, String, false, Bool-cases, inl, inr, List, [], ◌∷◌, ◌≡◌, ◌≢◌, refl, sym, ap, subst, ◌∙◌,
  arith, str_eq, eq_iff, eq_refl,
}
use wake_surfer.Store.{MessageRow, Db, empty_db, find_stream}
use wake_surfer.Store.Consistent.{sequences_of, last_of, down_from, GapFree}
use wake_surfer.Mutation.{update_rows}
use wake_surfer.History.{Call, Environment, run}
use wake_surfer.History.Changes.{
  Appends, Writing, editing, deleting, written, Change, stays, appends, writes, run-Keeps,
}

sequences_of-update_rows :
    (w : Writing) (id stream_id : String) (rows : List MessageRow)
    → sequences_of stream_id (update_rows id (written w) rows) ≡ sequences_of stream_id rows
unfolding sequences_of update_rows
sequences_of-update_rows w id stream_id [] = refl
sequences_of-update_rows (editing t now fits) id stream_id (row ∷ rows) =
    ground (arith, sequences_of-update_rows (editing t now fits) id stream_id rows)
sequences_of-update_rows (deleting now) id stream_id (row ∷ rows) =
    ground (arith, sequences_of-update_rows (deleting now) id stream_id rows)

longer :
    {numbers : List ℕ} {last n now : ℕ}
    → numbers ≡ down_from last
    → n ≡ suc last
    → now ≡ n
    → n ∷ numbers ≡ down_from now
longer h next now_last = rw now_last (rw next (rw h refl))

sequences_of-here :
    (row : MessageRow) (rows : List MessageRow)
    → sequences_of row.stream_id (row ∷ rows) ≡ row.sequence ∷ sequences_of row.stream_id rows
unfolding sequences_of
sequences_of-here row rows = rw (eq_refl row.stream_id) refl

sequences_of-there :
    (row : MessageRow) (rows : List MessageRow) (id : String)
    → str_eq row.stream_id id ≡ false
    → sequences_of id (row ∷ rows) ≡ sequences_of id rows
unfolding sequences_of
sequences_of-there row rows id h = rw h refl

Appends-GapFree : (before after : Db) → Appends before after → GapFree before → GapFree after
Appends-GapFree before after a h id = elim (Bool-cases (str_eq a.row.stream_id id)) [
  | inl same ↦
      subst (λ i. sequences_of i after.messages ≡ down_from (last_of i after.streams))
        ((eq_iff a.row.stream_id id).0 same)
        (ap (sequences_of a.row.stream_id) a.messages
          ∙ sequences_of-here a.row before.messages
          ∙ longer (h a.row.stream_id) a.next a.now_last)
  | inr differs ↦
      let apart : id ≢ a.row.stream_id =
        λ e. let refl_id = (eq_iff a.row.stream_id id).1 (sym e) in cc in
      ap (sequences_of id) a.messages
      ∙ sequences_of-there a.row before.messages id differs
      ∙ h id
      ∙ ap down_from (sym (a.others id apart))
]

pub Change-GapFree : (before after : Db) → Change before after → GapFree before → GapFree after
Change-GapFree before after (stays e) h = subst GapFree (sym e) h
Change-GapFree before after (appends a) h = Appends-GapFree before after a h
Change-GapFree before after (writes w) h =
    subst GapFree (sym w.updated)
      (λ id. sequences_of-update_rows w.writing w.message_id id before.messages ∙ h id)

pub empty_db-GapFree : GapFree empty_db
unfolding sequences_of find_stream
empty_db-GapFree id = refl

-- After any number of calls that send, edit and delete messages, from the empty database on and
-- whatever they answer, the messages of every stream have the sequence numbers 1, 2, 3, … up to the
-- stream's last one: in the order in which they were sent, none twice and none left out. Edited and
-- deleted messages keep their numbers.
pub run-GapFree :
    (env : Environment) (calls : List Call) (stream_id : String)
    → sequences_of stream_id (run env calls empty_db).messages
      ≡ down_from (last_of stream_id (run env calls empty_db).streams)
run-GapFree env calls stream_id =
    run-Keeps GapFree env Change-GapFree calls empty_db empty_db-GapFree stream_id
