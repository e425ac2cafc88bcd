-- ===== src/WriteQueue/Conflict.antt =====
-- Conflict kinds and their resolutions in crates/engine/src/write_queue.rs.
pub mod Sides
use git_bamboo.Prelude.{Option, none, some, ◌++◌, if◌then◌else◌, Result, ok, err}
use git_bamboo.Prelude.Text.{Text, codes, eq}
use git_bamboo.Protocol.{
  BambooError, invalid_argument, ConflictKind, both_deleted, added_by_us, deleted_by_them,
  added_by_them, deleted_by_us, both_added, both_modified, ConflictResolution, ours, theirs,
  keep_ours, keep_theirs,
}
use git_bamboo.WriteQueue.Command.{debug_resolution}

-- `porcelain_conflict_kind`
unfoldable pub porcelain_conflict_kind : Text → Option ConflictKind
porcelain_conflict_kind xy =
    if eq xy (codes "DD")
    then some both_deleted
    else if eq xy (codes "AU")
    then some added_by_us
    else if eq xy (codes "UD")
    then some deleted_by_them
    else if eq xy (codes "UA")
    then some added_by_them
    else if eq xy (codes "DU")
    then some deleted_by_us
    else if eq xy (codes "AA")
    then some both_added
    else if eq xy (codes "UU")
    then some both_modified
    else none

pub data ConflictAction : Type 0 where
  take_ours take_theirs remove : ConflictAction

kind_name : ConflictKind → Text
kind_name both_deleted = codes "both-deleted"
kind_name added_by_us = codes "added-by-us"
kind_name deleted_by_them = codes "deleted-by-them"
kind_name added_by_them = codes "added-by-them"
kind_name deleted_by_us = codes "deleted-by-us"
kind_name both_added = codes "both-added"
kind_name both_modified = codes "both-modified"

abbrev keep_hint : Text
keep_hint = codes "a side deleted the file: use keepOurs/keepTheirs"

abbrev side_hint : Text
side_hint = codes "both sides have content: use ours/theirs"

hint : ConflictKind → Text
hint both_deleted = keep_hint
hint deleted_by_them = keep_hint
hint deleted_by_us = keep_hint
hint _ = side_hint

mismatch_message : ConflictKind → ConflictResolution → Text
mismatch_message kind resolution =
    codes "resolution "
    ++ (debug_resolution resolution
        ++ (codes " is not valid for a "
            ++ (kind_name kind ++ (codes " conflict (" ++ (hint kind ++ codes ")")))))

-- the closure `mismatch`
mismatch : ConflictKind → ConflictResolution → BambooError
unfolding kind_name hint mismatch_message
mismatch kind resolution = invalid_argument (mismatch_message kind resolution)

-- `action_for`
unfoldable pub action_for : ConflictKind → ConflictResolution → Result BambooError ConflictAction
unfolding mismatch
action_for both_modified ours = ok take_ours
action_for both_added ours = ok take_ours
action_for added_by_us ours = ok take_ours
action_for added_by_them ours = ok take_ours
action_for both_modified theirs = ok take_theirs
action_for both_added theirs = ok take_theirs
action_for added_by_us theirs = ok take_theirs
action_for added_by_them theirs = ok take_theirs
action_for deleted_by_them keep_ours = ok take_ours
action_for deleted_by_them keep_theirs = ok remove
action_for deleted_by_us keep_ours = ok remove
action_for deleted_by_us keep_theirs = ok take_theirs
action_for both_deleted keep_ours = ok remove
action_for both_deleted keep_theirs = ok remove
action_for kind resolution = err (mismatch kind resolution)
