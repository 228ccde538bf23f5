-- ===== src/Db/Tables.antt =====
-- The tables of the database, each with its place in it.
use puppytalk_be.Db.Rows.{
  Post, Comment, Like, PostImage, Notification, UserBlock, Report, User, ChatRoom, ChatMessage,
}
use puppytalk_be.Db.Statements.{Table}

abbrev pub posts : Table Post
posts = record { rows = λ db. db.posts; with_rows = λ rows db. record db { posts = rows } }

abbrev pub comments : Table Comment
comments = record { rows = λ db. db.comments; with_rows = λ rows db. record db { comments = rows } }

abbrev pub post_likes : Table Like
post_likes = record {
  rows = λ db. db.post_likes;
  with_rows = λ rows db. record db { post_likes = rows };
}

abbrev pub comment_likes : Table Like
comment_likes = record {
  rows = λ db. db.comment_likes;
  with_rows = λ rows db. record db { comment_likes = rows };
}

abbrev pub post_images : Table PostImage
post_images = record {
  rows = λ db. db.post_images;
  with_rows = λ rows db. record db { post_images = rows };
}

abbrev pub user_blocks : Table UserBlock
user_blocks = record {
  rows = λ db. db.user_blocks;
  with_rows = λ rows db. record db { user_blocks = rows };
}

abbrev pub notifications : Table Notification
notifications = record {
  rows = λ db. db.notifications;
  with_rows = λ rows db. record db { notifications = rows };
}

abbrev pub reports : Table Report
reports = record { rows = λ db. db.reports; with_rows = λ rows db. record db { reports = rows } }

abbrev pub users : Table User
users = record { rows = λ db. db.users; with_rows = λ rows db. record db { users = rows } }

abbrev pub chat_rooms : Table ChatRoom
chat_rooms = record {
  rows = λ db. db.chat_rooms;
  with_rows = λ rows db. record db { chat_rooms = rows };
}

abbrev pub chat_messages : Table ChatMessage
chat_messages = record {
  rows = λ db. db.chat_messages;
  with_rows = λ rows db. record db { chat_messages = rows };
}
