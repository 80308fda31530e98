-- ===== src/Claim/PostOffice/Creation/Shown.antt =====
-- What a new post office has of the settings in its ini file.
use numcore_messaging_librar.Common.{
  ℕ, ◌≡◌, ◌≢◌, inl, inr, refl, ◌∙◌, [], Option, Bytes, codes, arith,
}
use numcore_messaging_librar.Numcfc.IniFile.{IniFile, get_value}
use numcore_messaging_librar.Numcfc.IniFile.Comment.{get_set_value}
use numcore_messaging_librar.Numcfc.IniFile.Comment.Values.{
  get_value-get_set_value, get_value-get_set_value_other,
}
use numcore_messaging_librar.Numrabw.LimitedSizeBuffer.{set_max_item_count, set_max_byte_count}
use numcore_messaging_librar.Numrabw.PostOffice.Front.{Office, read_settings}
use numcore_messaging_librar.Claim.PostOffice.{
  BufferLimits, server_section, office_section, get_receive_buffer_max_item_count,
  get_receive_buffer_max_megabytes, get_send_buffer_max_item_count, get_send_buffer_max_megabytes,
  read_limits, connect_info, create_connect_info,
}
use numcore_messaging_librar.Claim.PostOffice.Settings.{setting, create_connect_info-shown}
use numcore_messaging_librar.Claim.PostOffice.Creation.{Surroundings, create_post_office}

-- A setting of the buffers as it is read from the file.
abbrev pub limit : IniFile → Bytes → Bytes
limit f key = get_value f office_section key

-- A setting of the buffers changes no other, and none of the server's.
module _ (key default comment : Bytes) where
  abbrev got : IniFile → Bytes × IniFile
  got f = get_set_value f office_section key default comment

  server_kept : (f : IniFile) (key' : Bytes) → setting (got f).1 key' ≡ setting f key'
  server_kept f key' =
      get_value-get_set_value_other f office_section key server_section key' default comment
        (inl (ground arith))

  limit_kept : (f : IniFile) (key' : Bytes) → key' ≢ key → limit (got f).1 key' ≡ limit f key'
  limit_kept f key' ne =
      get_value-get_set_value_other f office_section key office_section key' default comment
        (inr ne)

  limit_shown : (f : IniFile) → key ≢ [] → limit (got f).1 key ≡ (got f).0
  limit_shown f ne = get_value-get_set_value f office_section key default comment ne

-- The limits that the file shows.
abbrev pub shown_limits : (Bytes → ℕ) → (Bytes → ℕ) → IniFile → BufferLimits
shown_limits to_count to_bytes f = record {
  recv_max_item_count = to_count (limit f (codes "ReceiveBufferMaxItemCount"));
  recv_max_byte_count = to_bytes (limit f (codes "ReceiveBufferMaxMegabytes"));
  send_max_item_count = to_count (limit f (codes "SendBufferMaxItemCount"));
  send_max_byte_count = to_bytes (limit f (codes "SendBufferMaxMegabytes"));
}

module _ (to_count to_bytes : Bytes → ℕ) (f : IniFile) where
  abbrev f1 : IniFile
  f1 = (get_receive_buffer_max_item_count f).1

  abbrev f2 : IniFile
  f2 = (get_receive_buffer_max_megabytes f1).1

  abbrev f3 : IniFile
  f3 = (get_send_buffer_max_item_count f2).1

  abbrev f4 : IniFile
  f4 = (get_send_buffer_max_megabytes f3).1

  read_limits-setting :
      (key : Bytes) → setting (read_limits to_count to_bytes f).1 key ≡ setting f key
  unfolding read_limits get_receive_buffer_max_item_count get_receive_buffer_max_megabytes
      get_send_buffer_max_item_count get_send_buffer_max_megabytes
  read_limits-setting key =
      server_kept (codes "SendBufferMaxMegabytes") _ _ f3 key
      ∙ server_kept (codes "SendBufferMaxItemCount") _ _ f2 key
      ∙ server_kept (codes "ReceiveBufferMaxMegabytes") _ _ f1 key
      ∙ server_kept (codes "ReceiveBufferMaxItemCount") _ _ f key

  read_limits-shown :
      (read_limits to_count to_bytes f).0
      ≡ shown_limits to_count to_bytes (read_limits to_count to_bytes f).1
  unfolding read_limits get_receive_buffer_max_item_count get_receive_buffer_max_megabytes
      get_send_buffer_max_item_count get_send_buffer_max_megabytes
  read_limits-shown =
      let recv_items : limit f4 (codes "ReceiveBufferMaxItemCount")
          ≡ (get_receive_buffer_max_item_count f).0 =
        limit_kept (codes "SendBufferMaxMegabytes") _ _ f3 (codes "ReceiveBufferMaxItemCount")
          (ground arith)
        ∙ limit_kept (codes "SendBufferMaxItemCount") _ _ f2 (codes "ReceiveBufferMaxItemCount")
            (ground arith)
        ∙ limit_kept (codes "ReceiveBufferMaxMegabytes") _ _ f1 (codes "ReceiveBufferMaxItemCount")
            (ground arith)
        ∙ limit_shown (codes "ReceiveBufferMaxItemCount") _ _ f (ground arith) in
      let recv_megabytes : limit f4 (codes "ReceiveBufferMaxMegabytes")
          ≡ (get_receive_buffer_max_megabytes f1).0 =
        limit_kept (codes "SendBufferMaxMegabytes") _ _ f3 (codes "ReceiveBufferMaxMegabytes")
          (ground arith)
        ∙ limit_kept (codes "SendBufferMaxItemCount") _ _ f2 (codes "ReceiveBufferMaxMegabytes")
            (ground arith)
        ∙ limit_shown (codes "ReceiveBufferMaxMegabytes") _ _ f1 (ground arith) in
      let send_items : limit f4 (codes "SendBufferMaxItemCount")
          ≡ (get_send_buffer_max_item_count f2).0 =
        limit_kept (codes "SendBufferMaxMegabytes") _ _ f3 (codes "SendBufferMaxItemCount")
          (ground arith)
        ∙ limit_shown (codes "SendBufferMaxItemCount") _ _ f2 (ground arith) in
      let send_megabytes : limit f4 (codes "SendBufferMaxMegabytes")
          ≡ (get_send_buffer_max_megabytes f3).0 =
        limit_shown (codes "SendBufferMaxMegabytes") _ _ f3 (ground arith) in
      rw (recv_items, recv_megabytes, send_items, send_megabytes) refl

-- The limits that an office has.
abbrev pub limits_of : {Q : Type 0} → Office Q → BufferLimits
limits_of o = record {
  recv_max_item_count = o.recv_buffer.max_item_count;
  recv_max_byte_count = o.recv_buffer.max_byte_count;
  send_max_item_count = o.send_buffer.max_item_count;
  send_max_byte_count = o.send_buffer.max_byte_count;
}

-- Whatever the ini file held before, a new post office connects with the settings of the server, and
-- has the limits of the buffers, that the file shows afterwards, defaults included.
pub create_post_office-shown :
    {Q : Type 0} (w : Surroundings Q) (client_identifier : Option Bytes) (f : IniFile)
    → let f' = (create_post_office w client_identifier f).1 in
      let created = (create_post_office w client_identifier f).0 in
      (created.connect_string
        ≡ connect_info
            (setting f' (codes "Host"))
            (w.port_text (setting f' (codes "Port")))
            (setting f' (codes "Username"))
            (setting f' (codes "Password"))
            (setting f' (codes "VirtualHost")))
      × (limits_of created.office ≡ shown_limits w.to_count w.to_bytes f')
unfolding create_post_office read_settings set_max_item_count set_max_byte_count
create_post_office-shown w client_identifier f =
    let f' : IniFile = (create_connect_info w.port_text f).1 in
    let kept = read_limits-setting w.to_count w.to_bytes f' in
    (
      rw
          (
            kept (codes "Host"),
            kept (codes "Port"),
            kept (codes "Username"),
            kept (codes "Password"),
            kept (codes "VirtualHost"),
          )
          (create_connect_info-shown w.port_text f),
      read_limits-shown w.to_count w.to_bytes f',
    )
