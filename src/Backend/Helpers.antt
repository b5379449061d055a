-- ===== src/Backend/Helpers.antt =====
-- backend/utils_html.go, backend/utils_file.go, backend/utils_time.go, and the welcome text of
-- backend/cache.go.
use etcd_play.Base.{List, [], ◌∷◌, ◌++◌, foldr}
use etcd_play.Base.Text.{Text, codes}
use etcd_play.Base.Time.{ℤ, pos, negsuc}
use etcd_play.Base.Decimal.{decimal}
use etcd_play.Base.{suc}
use etcd_play.Base.Outcome.{M, ◌>>=◌, pure}
use etcd_play.Proc.Error.{Result, ok, err}
use etcd_play.Proc.Helpers.{Os, read_only, read_write, append, truncate, open_or_create}

-- boldHTMLMsg
unfoldable pub bold_html_msg : Text → Text
bold_html_msg msg = codes "<br><b>[LOG] " ++ (msg ++ codes "</b><br>")

-- %d of an int
unfoldable pub show_int : ℤ → Text
show_int (pos n) = decimal n
show_int (negsuc n) = codes "-" ++ decimal (suc n)

abbrev concat : List Text → Text
concat = foldr ◌++◌ []

abbrev line_end : Text
line_end = 10 ∷ []

-- The text before and behind the number of other users.
abbrev welcome_start : List Text
welcome_start =
    codes "<br>"
    ∷ line_end
    ∷ codes "- You've joined an <a href=\"https://github.com/coreos/etcd\" "
    ∷ codes "target=\"_blank\"><b>etcd</b></a> cluster <i>with "
    ∷ []

abbrev welcome_end : List Text
welcome_end =
    codes " other user(s) now</i>.<br>"
    ∷ line_end
    ∷ codes "- This is a <b>real</b> <a "
    ∷ codes "href=\"https://github.com/coreos/etcd\" "
    ∷ codes "target=\"_blank\"><b>etcd</b></a> cluster of 5 nodes, "
    ∷ codes "deployed in cloud environment <font color=\"red\"><i>(not a "
    ∷ codes "simulator)</i></font>.<br>"
    ∷ line_end
    ∷ codes "- <a href=\"https://github.com/coreos/etcd\" "
    ∷ codes "target=\"_blank\"><b>etcd</b></a> is distributed reliable "
    ∷ codes "key-value store for the most critical data of a distributed "
    ∷ codes "system.<br>"
    ∷ line_end
    ∷ codes "- Using <a href=\"https://raft.github.io\" "
    ∷ codes "target=\"_blank\">Raft</a>, <a "
    ∷ codes "href=\"https://github.com/coreos/etcd\" "
    ∷ codes "target=\"_blank\"><b>etcd</b></a> gracefully handles "
    ∷ codes "<b>network partitions</b> and <b>machine failures</b>, even "
    ∷ codes "<b><font color='red'>leader failures</font></b>.<br>"
    ∷ line_end
    ∷ codes "- Tutorials and source code can be found at <a "
    ∷ codes "href=\"https://github.com/coreos/etcd-play\" "
    ∷ codes "target=\"_blank\"><b>coreos/etcd-play</b></a>.<br>"
    ∷ line_end
    ∷ codes "- This runs <b>master branch of <a "
    ∷ codes "href=\"https://github.com/coreos/etcd\" "
    ∷ codes "target=\"_blank\">etcd</a></b>. For any issues or questions, "
    ∷ codes "please report at <i><b><a "
    ∷ codes "href=\"https://github.com/coreos/etcd-play/issues/new\" "
    ∷ codes "target=\"_blank\">issues</a></b></i>.<br>"
    ∷ line_end
    ∷ codes "- Please click <font color='#0000A0'>circle(node)</font> "
    ∷ codes "for more node information (<font color='green'>green</font> "
    ∷ codes "is leader, <font color='blue'>blue</font> is follower).<br>"
    ∷ line_end
    ∷ codes "- <font color='red'>Kill</font> to stop node(even the <font "
    ∷ codes "color='green'><b>leader</b></font>). <font "
    ∷ codes "color='red'>Restart</font> to recover node.<br>"
    ∷ line_end
    ∷ codes "- <font color='blue'>Hash</font> shows how <b>etcd</b>, "
    ∷ codes "<i>as a distributed database</i>, <b>keeps its data "
    ∷ codes "consistent</b>.<br>"
    ∷ line_end
    ∷ codes "- Select <b>any endpoint</b><i>(etcd1, etcd2, ...)</i> to "
    ∷ codes "PUT, GET, DELETE, and then click <b>Submit</b>.<br>"
    ∷ line_end
    ∷ codes "- Pass <b><i>--prefix</i></b> to GET and DELETE to query by "
    ∷ codes "prefix.<br>"
    ∷ line_end
    ∷ codes "<br>"
    ∷ line_end
    ∷ codes "<i>Note: Request logs are streamed based on your IP and "
    ∷ codes "user agent. So if you have multiple<br>"
    ∷ line_end
    ∷ codes "web browsers running at the same time, logs might be shown "
    ∷ codes "only in one of them.</i><br>"
    ∷ line_end
    ∷ []

-- getWelcomeMsg, for the number of other users
unfoldable pub welcome_msg : ℤ → Text
unfolding bold_html_msg show_int
welcome_msg others =
    bold_html_msg (codes "Hello World! Welcome to etcd playground!")
    ++ (concat welcome_start ++ (show_int others ++ concat welcome_end))

-- openToRead
unfoldable pub open_to_read : {S F : Type 0} → Os S F → Text → M S (Result F)
open_to_read os path = do
  r ← os.open_file path (read_only ∷ []) 0o444
  elim r [ ok f ↦ pure (ok f) | err e ↦ pure (err e) ]

-- openToAppend
unfoldable pub open_to_append : {S F : Type 0} → Os S F → Text → M S (Result F)
unfolding open_or_create
open_to_append os path = open_or_create os path (read_write ∷ append ∷ [])

-- openToOverwrite
unfoldable pub open_to_overwrite : {S F : Type 0} → Os S F → Text → M S (Result F)
unfolding open_or_create
open_to_overwrite os path = open_or_create os path (read_write ∷ truncate ∷ [])

-- nowPST: the time as it is shown in Los Angeles, or on the machine when that location is unknown.
unfoldable pub now_pst :
    {Time Location : Type 0} → (Text → Result Location) → (Time → Location → Time) → Time → Time
now_pst load_location shown_in now = elim (load_location (codes "America/Los_Angeles")) [
  | err e ↦ now
  | ok tzone ↦ shown_in now tzone
]
